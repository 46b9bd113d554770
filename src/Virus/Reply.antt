-- ===== src/Virus/Reply.antt =====
-- The answers of virus_handler.cpp, on a host that runs out of nothing.
use socket_server.Prelude.{ℕ, ◌≡◌, refl, [], ◌∷◌, ◌++◌, arith, pos, Returns}
use socket_server.Cache.{Stdio}
use socket_server.Cache.Storage.{IsReliable}
use socket_server.Wire.{State, state_code, bytes_of_word}
use socket_server.Hv.{Hv, new}
use socket_server.Hv.Store.{IsReady, write_message-IsReady}
use socket_server.Virus.{Session, state_size, blank_reply, response}

-- An answer to the request `id`: the header in network order, and the four bytes of the state, in the
-- order of the host.
abbrev pub IsReply : ℕ → State → Hv → Type 0
IsReply id state r =
    IsReady (record { id = id; length = state_size }) (bytes_of_word (state_code state)) (r, pos 0)

-- One answer more waits, and nothing else of the session has changed.
pub record Answered (s : Session) (id : ℕ) (state : State) (t : Session) : Type 0 where
  pub reply : Hv
  pub queued : t.resp ≡ s.resp ++ reply ∷ []
  pub correct : IsReply id state reply
  pub same_req : t.req ≡ s.req
  pub same_state : t.state ≡ s.state

module _ {W : Type 0} (host : Stdio W) (rel : IsReliable host) where
  -- `response` queues one answer, to the request's id and with the state given.
  pub response-Answered :
      (s : Session) (req : Hv) (state : State) (w : W)
      → Returns (response host s req state w) (λ t _. Answered s req.header.id state t)
  unfolding response blank_reply new bytes_of_word
  response-Answered s req state w = grind (
    arith,
    write_message-IsReady host rel blank_reply (record { id = req.header.id; length = state_size })
        (bytes_of_word (state_code state)) w refl refl (omega arith),
  )
