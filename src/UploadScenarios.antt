-- ===== src/UploadScenarios.antt =====
-- The theorem on the file client and the server together, for a file of a kilobyte.
use socket_server.Prelude.{false, true, ℕ, List, [], ◌∷◌, ◌++◌, replicate, pos}
use socket_server.BaseSocket.{Process}
use socket_server.Hv.Head.{encode}
use socket_server.Client.Talk.{Peer}
use socket_server.Upload.{request_of, answer_bytes}
use socket_server.LoopScenarios.{object}
use socket_server.FeedScenarios.{Pipe}

abbrev file : List ℕ
file = replicate 1024 7

abbrev before_answer : Peer
before_answer = record { sent = []; coming = answer_bytes }

-- The request's header with 24 bytes of the file, and 1000 more.
abbrev pieces : List (List ℕ)
pieces = (encode (request_of file).header ++ replicate 24 7) ∷ replicate 1000 7 ∷ []

-- A server that listens on the socket 3.
abbrev listening : Process Pipe
listening = record {
  objects = object;
  next = 1;
  handlers = (pos 3, 0) ∷ [];
  world = (true, pieces, [], []);
  stale = false;
}
