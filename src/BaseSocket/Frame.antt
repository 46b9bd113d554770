-- ===== src/BaseSocket/Frame.antt =====
-- What the operations of base_socket.cpp on handlers and their map keep of a process.
use socket_server.Prelude.{
  ℕ, ◌≡◌, refl, sym, true, false, none, some, List, ℤ, arith, ◌∙◌, ap, Keeps, Triple, Triple-bind,
  keeps_rules, inl, inr, Option-cases, subst,
}
use socket_server.Cp.{Net}
use socket_server.Cp.Frame.{NetKeeps, cp_close_socket-Keeps, cp_recv-Keeps, cp_send-Keeps}
use socket_server.BaseSocket.{
  Class, base_socket, socket_handler, virus_handler, tcp_server, expt_as, Handler, Process,
  lift_net, load, store, erase, insert, allocate, find, remove, update, add_channel, del_channel,
  set_socket, close, handle_close, handle_expt, recv, send,
}
use socket_server.BaseSocket.Map.{==ℤ-sound, find-remove_if, find-put_if, remove-IsMap, put-IsMap}
use socket_server.BaseSocket.Channel.{erase-IsBut}
use socket_server.BaseSocket.Leave.{after_load}
use socket_server.BaseSocket.Owned.{lift_net-Keeps, IsOwned, IsNew, IsOwned-IsFrame}

-- An object keeps its socket and its life when its other members are written.
abbrev pub IsMild : (Handler → Handler) → Type 0
IsMild f = (h : Handler) → ((f h).sock ≡ h.sock) × ((f h).live ≡ h.live)

module _ {W : Type 0} where
  pub load-Keeps : (this : ℕ) → Triple (IsOwned {W = W}) (load this) (λ h. IsOwned)
  unfolding load
  load-Keeps this = record {
    at = λ p h. record {
      one_entry = h.one_entry;
      alive = h.alive;
      same_sock = h.same_sock;
      allocated = h.allocated;
    };
  }

  pub store-Keeps :
      (this : ℕ) (f : Handler → Handler)
      → IsMild f
      → Triple (IsOwned {W = W}) (store this f) (λ u. IsOwned)
  unfolding store
  store-Keeps this f m = record {
    at = λ p h. record {
      one_entry = h.one_entry;
      alive = λ s o e. ground (arith, h.alive s o e, m (p.objects this), ap p.objects);
      same_sock = λ s o e. ground (arith, h.same_sock s o e, m (p.objects this));
      allocated = h.allocated;
    };
  }

  pub erase-absent : (sock : ℤ) (p : Process W) → find sock p.handlers ≡ none → erase sock p ≡ p
  unfolding erase
  erase-absent sock p e = ground (arith, e)

  pub erase-present :
      (sock : ℤ) (p : Process W) (o : ℕ)
      → find sock p.handlers ≡ some o
      → erase sock p ≡ record p {
        handlers = remove sock p.handlers;
        objects = update p.objects o (record (p.objects o) { live = false });
      }
  unfolding erase
  erase-present sock p o e = ground (arith, e)

  -- What is under another socket stays as it was.
  pub erase-IsOwned : (sock : ℤ) (p : Process W) → IsOwned p → IsOwned (erase sock p)
  erase-IsOwned sock p h = elim (Option-cases (find sock p.handlers)) [
    | inl e ↦ subst IsOwned (sym (erase-absent sock p e)) h
    | inr (o, e) ↦ subst IsOwned (sym (erase-present sock p o e)) (record {
      one_entry = remove-IsMap sock p.handlers h.one_entry;
      alive = λ s o' e'. ground (
        arith,
        find-remove_if sock s p.handlers h.one_entry,
        h.alive s o',
        h.same_sock s o',
        h.same_sock sock o,
        ap p.objects,
      );
      same_sock =
          λ s o' e'. ground (arith, find-remove_if sock s p.handlers h.one_entry, h.same_sock s o');
      allocated =
          λ s o' e'. ground (arith, find-remove_if sock s p.handlers h.one_entry, h.allocated s o');
    })
  ]

  pub after_load-IsNew : (this o : ℕ) (p : Process W) → IsNew this p → IsNew this (after_load p o)
  unfolding load
  after_load-IsNew this o p h = record {
    owned = (load-Keeps o).at p h.owned;
    live = h.live;
    below = h.below;
    unheld = h.unheld;
  }

  pub load-IsNew : (this o : ℕ) → Triple (IsNew {W = W} this) (load o) (λ h. IsNew this)
  unfolding load
  load-IsNew this o = record { at = λ p h. after_load-IsNew this o p h }

  -- Nothing holds the object, so its members may change, but for its life.
  pub store-IsNew :
      (this : ℕ) (f : Handler → Handler)
      → ((h : Handler) → (f h).live ≡ h.live)
      → Triple (IsNew {W = W} this) (store this f) (λ u. IsNew this)
  unfolding store
  store-IsNew this f m = record {
    at = λ p h. record {
      owned = record {
        one_entry = h.owned.one_entry;
        alive = λ s o e. ground (arith, h.owned.alive s o e, h.unheld s);
        same_sock = λ s o e. ground (arith, h.owned.same_sock s o e, h.unheld s);
        allocated = h.owned.allocated;
      };
      live = ground (arith, h.live, m (p.objects this));
      below = h.below;
      unheld = h.unheld;
    };
  }

  erase-IsNew : (this : ℕ) (sock : ℤ) (p : Process W) → IsNew this p → IsNew this (erase sock p)
  erase-IsNew this sock p h = elim (Option-cases (find sock p.handlers)) [
    | inl e ↦ subst (IsNew this) (sym (erase-absent sock p e)) h
    | inr (o, e) ↦
        let owned : IsOwned (erase sock p) = erase-IsOwned sock p h.owned in
        subst (IsNew this) (sym (erase-present sock p o e)) (record {
          owned = subst IsOwned (erase-present sock p o e) owned;
          live = ground (arith, h.live, h.unheld sock);
          below = h.below;
          unheld = λ s e'.
              ground (arith, find-remove_if sock s p.handlers h.owned.one_entry, h.unheld s);
        })
  ]

  insert-IsNew :
      (this : ℕ) (p : Process W)
      → IsNew this p
      → find (p.objects this).sock p.handlers ≡ none
      → IsOwned (insert (p.objects this).sock this p)
  unfolding insert
  insert-IsNew this p h n = record {
    one_entry = put-IsMap (p.objects this).sock this p.handlers n h.owned.one_entry;
    alive = λ s o e.
        ground
          (arith, find-put_if (p.objects this).sock s this p.handlers n, h.owned.alive s o, h.live);
    same_sock = λ s o e. ground (
      arith,
      find-put_if (p.objects this).sock s this p.handlers n,
      h.owned.same_sock s o,
      ==ℤ-sound (p.objects this).sock s,
    );
    allocated = λ s o e. ground (
      arith,
      find-put_if (p.objects this).sock s this p.handlers n,
      h.owned.allocated s o,
      h.below,
    );
  }

  erase_spares :
      (this : ℕ) (sock : ℤ) (p : Process W)
      → IsNew this p
      → (erase sock p).objects this ≡ p.objects this
  erase_spares this sock p h = elim (Option-cases (find sock p.handlers)) [
    | inl e ↦ ap (λ (q : Process W). q.objects this) (erase-absent sock p e)
    | inr (o, e) ↦
        ap (λ (q : Process W). q.objects this) (erase-present sock p o e)
        ∙ ground (arith, h.unheld sock)
  ]

  -- A new handler is put into the map, and what was under its socket is destroyed.
  erase-insert :
      (this : ℕ) (p : Process W)
      → IsNew this p
      → IsOwned (insert (p.objects this).sock this (erase (p.objects this).sock p))
  erase-insert this p h =
      let sock = (p.objects this).sock in
      let spared : (erase sock p).objects this ≡ p.objects this = erase_spares this sock p h in
      subst (λ s. IsOwned (insert s this (erase sock p))) (ap (λ (o : Handler). o.sock) spared)
        (insert-IsNew this (erase sock p) (erase-IsNew this sock p h)
          (rw spared (erase-IsBut sock p h.owned.one_entry).0))

  pub allocate-IsNew :
      (h : Handler) → h.live ≡ true → Triple (IsOwned {W = W}) (allocate h) (λ this. IsNew this)
  unfolding allocate
  allocate-IsNew h l = record {
    at = λ p v. record {
      owned = record {
        one_entry = v.one_entry;
        alive = λ s o e. ground (arith, v.alive s o e, v.allocated s o e);
        same_sock = λ s o e. ground (arith, v.same_sock s o e, v.allocated s o e);
        allocated = λ s o e. omega (arith, v.allocated s o e);
      };
      live = ground arith;
      below = omega arith;
      unheld = λ s e. omega (arith, v.allocated s p.next e);
    };
  }

module _ {W : Type 0} (net : Net W) where
  keeps : NetKeeps (lift_net net) (IsOwned {W = W})
  keeps = lift_net-Keeps (IsOwned-IsFrame W) net

  add_channel-IsNew : (this : ℕ) → Triple (IsNew {W = W} this) (add_channel net this) (λ u. IsOwned)
  unfolding add_channel load
  add_channel-IsNew this = record {
    at = λ p h. erase-insert this (after_load p this) (after_load-IsNew this this p h);
  }

  pub del_channel-Keeps : (this : ℕ) → Keeps (IsOwned {W = W}) (del_channel net this)
  unfolding del_channel
  del_channel-Keeps this = search (keeps_rules, load-Keeps, erase-IsOwned)

  pub set_socket-IsNew :
      (this : ℕ) (sock : ℤ) → Triple (IsNew {W = W} this) (set_socket net this sock) (λ u. IsOwned)
  unfolding set_socket
  set_socket-IsNew this sock =
      Triple-bind (λ u. IsNew this) _ _
        (store-IsNew this (λ h. record h { sock = sock }) (λ h. refl)) (λ u. add_channel-IsNew this)

  pub close-Keeps : (this : ℕ) → Keeps (IsOwned {W = W}) (close net this)
  unfolding close
  close-Keeps this =
      let mild : IsMild
          (λ h. record h { connected = false; connecting = false; accepting = false }) =
        λ h. (refl, refl) in
      search (
        keeps_rules,
        store-Keeps,
        mild,
        del_channel-Keeps,
        load-Keeps,
        cp_close_socket-Keeps (lift_net net) keeps,
      )

  expt_as-Keeps : (class : Class) (this : ℕ) → Keeps (IsOwned {W = W}) (expt_as net class this)
  unfolding expt_as handle_close
  expt_as-Keeps base_socket this = search keeps_rules
  expt_as-Keeps tcp_server this = search keeps_rules
  expt_as-Keeps socket_handler this = close-Keeps this
  expt_as-Keeps virus_handler this = close-Keeps this

  pub handle_expt-Keeps : (this : ℕ) → Keeps (IsOwned {W = W}) (handle_expt net this)
  unfolding handle_expt
  handle_expt-Keeps this = search (keeps_rules, load-Keeps, expt_as-Keeps)

  pub recv-Keeps : (this size : ℕ) → Keeps (IsOwned {W = W}) (recv net this size)
  unfolding recv handle_close
  recv-Keeps this size =
      search
        (
          keeps_rules,
          load-Keeps,
          cp_recv-Keeps (lift_net net) keeps,
          close-Keeps,
          handle_expt-Keeps,
        )
        depth 9

  pub send-Keeps : (this : ℕ) (buf : List ℕ) → Keeps (IsOwned {W = W}) (send net this buf)
  unfolding send handle_close
  send-Keeps this buf =
      let same_world : (p : Process W) → IsOwned p → IsOwned p = λ p h. h in
      search (keeps_rules, load-Keeps, cp_send-Keeps (lift_net net) keeps, close-Keeps, same_world)
        depth 9
