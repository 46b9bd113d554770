-- ===== src/Upload.antt =====
-- client/test_client.cpp and doc_ferry_server/ together: the file client sends a file to the server.
use socket_server.Prelude.{
  ℕ, suc, ◌<◌, ◌≤◌, ◌^◌, ◌≡◌, Option, some, List, [], ◌∷◌, ◌++◌, length, ℤ, pos,
}
use socket_server.Cache.{Stdio}
use socket_server.Cache.Storage.{IsReliable}
use socket_server.Cp.{Net, Addr}
use socket_server.Wire.{Header, state_ok, state_code, bytes_of_word}
use socket_server.Hv.{default_max_memory_cache}
use socket_server.Hv.Head.{encode}
use socket_server.Virus.{Session, state_size}
use socket_server.Virus.Read.{Message}
use socket_server.BaseSocket.{Process}
use socket_server.Setup.Join.{IsPeer}
use socket_server.Events.Deliver.{TakesAll}
use socket_server.Select.Exchange.{IsDuplex}
use socket_server.Select.Piece.{IsFeed}
use socket_server.Virus.Pieces.{joined}
use socket_server.Setup.World.{JoinKeeps}
use socket_server.Client.{request_id}

-- The request for a file, and the answer to it.
abbrev pub request_of : List ℕ → Message
request_of file = record { header = record { id = request_id; length = length file }; value = file }

abbrev pub request_bytes : List ℕ → List ℕ
request_bytes file = encode (record { id = request_id; length = length file }) ++ file

abbrev pub answer_header : Header
answer_header = record { id = request_id; length = state_size }

abbrev pub answer_bytes : List ℕ
answer_bytes = encode answer_header ++ bytes_of_word (state_code state_ok)

module _ {W : Type 0} (net : Net W) (stdio : Stdio W) (rel : IsReliable stdio)
    (sent : ℤ → W → List ℕ) (all : TakesAll net stdio sent) (k : ℕ)
    (left : List (List ℕ) → W → Type 0) (feed : IsFeed net stdio (pos (suc k)) left)
    (duplex : IsDuplex net stdio (pos (suc k)) sent (left [])) (fuel : ℕ) (enough : 4 < suc fuel)
    (session : Session) (addr : Addr) (ip : List ℕ) (known : IsPeer net (pos (suc k)) addr ip)
    (file piece : List ℕ) (vs : List (List ℕ)) (pieces : file ≡ piece ++ joined vs)
    (keeps : (x : List ℕ)
      → JoinKeeps net (λ w.
        left ((encode (request_of file).header ++ piece) ∷ vs) w × (sent (pos (suc k)) w ≡ x)))
    (large : default_max_memory_cache ≤ length file) (small : length file < 2 ^ 31) where
  abbrev sock : ℤ
  sock = pos (suc k)

  -- What is on its way when the client joins.
  abbrev coming : List (List ℕ)
  coming = (encode (request_of file).header ++ piece) ∷ vs

  -- The file has its answer, after `x`.
  abbrev Answered : ℕ → List ℕ → Option (Unit {0}) → Process W → Type 0
  Answered this x d q =
      (d ≡ some tt) × (sent sock q.world ≡ x ++ answer_bytes) × ((q.objects this).session.resp ≡ [])
