-- ===== src/Events/Isolation.antt =====
-- The events of one client's handler and the other handlers of the map.
use socket_server.Prelude.{
  ℕ, ◌≡◌, refl, sym, false, some, ℤ, ◌==ℤ◌, ◌==◌, arith, ◌∙◌, ap, Keeps, IfOk, Result, ok, ub, M,
  inl, inr, Option-cases, subst,
}
use socket_server.Cache.{Stdio}
use socket_server.Cp.{Net}
use socket_server.Virus.{Session}
use socket_server.BaseSocket.{Handler, Process, load, store, erase, del_channel, find}
use socket_server.BaseSocket.Map.{find-remove_if}
use socket_server.BaseSocket.Leave.{after_load}
use socket_server.BaseSocket.Owned.{IsOwned, IsOwned-IsFrame}
use socket_server.BaseSocket.Frame.{
  IsMild, load-Keeps, store-Keeps, erase-IsOwned, erase-absent, erase-present,
}
use socket_server.Events.{
  handle_read_event, handle_write_event, handle_expt_event, handle_read, handle_write,
}
use socket_server.Events.Leave.{IsServing}
use socket_server.Events.Local.{
  IsLocal, read_requests-Keeps, write_replies-Keeps, handle_expt_event-Keeps,
}

-- The object `this` has the socket `s`; the map has the object `o`, which is `h`, under another one.
pub record IsApart {W : Type 0} (this : ℕ) (s s' : ℤ) (o : ℕ) (h : Handler) (p : Process W)
    : Type 0 where
  pub owned : IsOwned p
  pub own_sock : (p.objects this).sock ≡ s
  pub held : find s' p.handlers ≡ some o
  pub same : p.objects o ≡ h

module _ {W : Type 0} (net : Net W) (this : ℕ) (s s' : ℤ) (o : ℕ) (h : Handler)
    (d : (s ==ℤ s') ≡ false) where
  abbrev Apart : Process W → Type 0
  Apart = IsApart this s s' o h

  distinct : (p : Process W) → Apart p → (this == o) ≡ false
  distinct p a = ground (arith, a.own_sock, a.owned.same_sock s' o a.held, d, ap p.objects)

  load-Apart : Keeps Apart (load this)
  unfolding load
  load-Apart = record {
    at = λ p a. record {
      owned = (load-Keeps this).at p a.owned;
      own_sock = a.own_sock;
      held = a.held;
      same = a.same;
    };
  }

  store-Apart : (f : Handler → Handler) → IsMild f → Keeps Apart (store this f)
  unfolding store
  store-Apart f m = record {
    at = λ p a. record {
      owned = (store-Keeps this f m).at p a.owned;
      own_sock = ground (arith, (m (p.objects this)).0, a.own_sock);
      held = a.held;
      same = ground (arith, distinct p a, a.same);
    };
  }

  erase-Apart : (p : Process W) → Apart p → Apart (erase s p)
  erase-Apart p a = elim (Option-cases (find s p.handlers)) [
    | inl e ↦ subst Apart (sym (erase-absent s p e)) a
    | inr (o', e) ↦
        let owned : IsOwned (erase s p) = erase-IsOwned s p a.owned in
        let other : (o' == o) ≡ false =
          ground
            (arith, a.owned.same_sock s o' e, a.owned.same_sock s' o a.held, d, ap p.objects) in
        subst Apart (sym (erase-present s p o' e)) (record {
          owned = subst IsOwned (erase-present s p o' e) owned;
          own_sock = ground (arith, a.own_sock, ap p.objects);
          held = find-remove_if s s' p.handlers a.owned.one_entry ∙ ground (arith, d, a.held);
          same = ground (arith, other, a.same);
        })
  ]

  del_channel-Apart : Keeps Apart (del_channel net this)
  unfolding del_channel load
  del_channel-Apart = record {
    at = λ p a.
        subst (λ k. Apart (erase k (after_load p this))) (sym a.own_sock)
          (erase-Apart (after_load p this) (load-Apart.at p a));
  }

  Apart-IsLocal : IsLocal net this Apart
  Apart-IsLocal = record {
    frame = λ p w a. record {
      owned = IsOwned-IsFrame W p w a.owned;
      own_sock = a.own_sock;
      held = a.held;
      same = a.same;
    };
    load_keeps = load-Apart;
    store_keeps = store-Apart;
    del_channel_keeps = del_channel-Apart;
  }

-- The map still has `o` under `s`, and the object is as it was.
abbrev pub IsSpared : {W : Type 0} → ℤ → ℕ → Process W → Process W → Type 0
IsSpared s o p q = IsOwned q × (find s q.handlers ≡ some o) × (q.objects o ≡ p.objects o)

module _ {W : Type 0} (net : Net W) (stdio : Stdio W) (fuel : ℕ) where
  IfOk-map :
      {A : Type 0} (Q R : A → Process W → Type 0) (r : Result (A × Process W))
      → IfOk Q r
      → ((a : A) (w : Process W) → Q a w → R a w)
      → IfOk R r
  IfOk-map Q R (ok p) h k = k p.0 p.1 h
  IfOk-map Q R (ub e) h k = tt

  spared :
      {A : Type 0} (p : Process W) (this : ℕ) (s : ℤ) (o : ℕ) (m : M (Process W) A) (q : Process W)
      → Keeps (IsApart this (p.objects this).sock s o (p.objects o)) m
      → IsApart this (p.objects this).sock s o (p.objects o) q
      → IfOk (λ a. IsSpared s o p) (m q)
  spared p this s o m q k a =
      IfOk-map (λ r. IsApart this (p.objects this).sock s o (p.objects o)) (λ r. IsSpared s o p)
        (m q) (k.at q a) (λ r w b. (b.owned, b.held, b.same))

  -- On a map that owns its handlers, for a connected VirusHandler and another handler that the map has
  -- under another socket, over any network and library: after a read event, a write event or an
  -- exception event of the first, unless undefined behaviour ended it, the map still owns its handlers,
  -- and has the second one under its socket, with all of its members as they were.
  pub events-IsSpared :
      (session : Session) (p : Process W) (this : ℕ) (s : ℤ) (o : ℕ)
      → IsOwned p
      → IsServing p this
      → ((p.objects this).sock ==ℤ s) ≡ false
      → find s p.handlers ≡ some o
      → IfOk (λ d. IsSpared s o p) (handle_read_event net stdio fuel session this p)
        × IfOk (λ d. IsSpared s o p) (handle_write_event net stdio fuel this p)
        × IfOk (λ u. IsSpared s o p) (handle_expt_event net stdio fuel this p)
  unfolding handle_read_event handle_write_event handle_read handle_write load
  events-IsSpared session p this s o w v d f =
      let apart : IsApart this (p.objects this).sock s o (p.objects o) p = record {
        owned = w;
        own_sock = refl;
        held = f;
        same = refl;
      } in
      let loaded : IsApart this (p.objects this).sock s o (p.objects o)
          (after_load (after_load p this) this) =
        record {
          owned = (load-Keeps this).at (after_load p this) ((load-Keeps this).at p w);
          own_sock = refl;
          held = f;
          same = refl;
        } in
      let local = Apart-IsLocal net this (p.objects this).sock s o (p.objects o) d in
      (
        rw (v.accepting, v.connected, v.class)
            (spared p this s o _ _ (read_requests-Keeps net stdio fuel this local) loaded),
        rw (v.accepting, v.connected, v.class)
            (spared p this s o _ _ (write_replies-Keeps net stdio fuel this local) loaded),
        spared p this s o _ p (handle_expt_event-Keeps net stdio fuel this local) apart,
      )
