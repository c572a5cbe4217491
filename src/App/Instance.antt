-- ===== src/App/Instance.antt =====
-- scheduler.go and httpServer.go: the identifier of this instance, which a file keeps, and the local
-- server.
use telephonist_agent.Base.{ℕ, ◌≡◌, Bytes, Bool, true, false, Option, none, some, arith}
use telephonist_agent.Errors.{Error}

-- The file beside the configuration: what reading it fails with where it is there, whether it can be
-- written, and its content.
pub record IdFile : Type 0 where
  pub read_error : Option Error
  pub is_writable : Bool
  pub content : Option Bytes

-- `os.WriteFile`, whose error is dropped.
written : Bytes → IdFile → IdFile
written text f = elim f.is_writable [ true ↦ record f { content = some text } | false ↦ f ]

-- `getOrSetInstanceID`, with `uuid.Parse`, the text of a UUID and the one that `uuid.New` would give.
unfoldable pub get_or_set_instance_id : (Bytes → Option ℕ) → (ℕ → Bytes) → ℕ → IdFile → IdFile × ℕ
unfolding written
get_or_set_instance_id parse uuid_text fresh f = elim f.content [
  | none ↦ (written (uuid_text fresh) f, fresh)
  | some text ↦ elim f.read_error [
    | some _ ↦ (f, fresh)
    | none ↦ elim (parse text) [ some u ↦ (f, u) | none ↦ (written (uuid_text fresh) f, fresh) ]
  ]
]

-- When the file can be read and written and the text of a UUID is parsed back to it, a second call of
-- `getOrSetInstanceID` gives the identifier of the first one and leaves the file as it is, whatever
-- the file held.
pub get_or_set_instance_id-again :
    (parse : Bytes → Option ℕ) (uuid_text : ℕ → Bytes) (fresh fresh' : ℕ) (f : IdFile)
    → ((n : ℕ) → parse (uuid_text n) ≡ some n)
    → f.read_error ≡ none
    → f.is_writable ≡ true
    → let first = get_or_set_instance_id parse uuid_text fresh f in
      get_or_set_instance_id parse uuid_text fresh' first.0 ≡ first
unfolding get_or_set_instance_id written
get_or_set_instance_id-again parse uuid_text fresh fresh' f back reads writes =
    ground (arith, back fresh)

-- `Server`; `is_listening` is whether there is an `http.Server`.
pub record Server : Type 0 where
  pub is_running : Bool
  pub is_listening : Bool

unfoldable pub new_server : Server
new_server = record { is_running = false; is_listening = false }

unfoldable pub start : Server → Server
start s = elim s.is_running [ true ↦ s | false ↦ record { is_running = true; is_listening = true } ]

unfoldable pub stop : Server → Server
stop s = record s { is_listening = false }

-- A server that was started once and then stopped is not started again by `Start`: `Stop` leaves the
-- mark that it runs.
pub start-stop :
    (s : Server)
    → let stopped = stop (start s) in (stopped.is_listening ≡ false) × (start stopped ≡ stopped)
unfolding start stop
start-stop s = ground arith
