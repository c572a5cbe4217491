-- ===== src/Ws/Reading.antt =====
-- telephonist/wsclient.go: `readPump`, over what the connection gives.
use mathlib.Core.Path.{subst}
use telephonist_agent.Base.{
  ℕ, zero, suc, Bytes, List, [], ◌∷◌, ◌++◌, Bool, true, false, Option, Go, done, ◌>>=◌, >>=-eq-done,
  ◌≡◌, refl, arith, inl, inr, ◌⊎◌,
}
use telephonist_agent.Errors.{Error}
use telephonist_agent.Ws.{WsClient}
use telephonist_agent.Ws.Lifecycle.{Host, on_disconnect}
use telephonist_agent.Ws.Receiving.{
  RawMessage, Decoders, Report, Callbacks, Keeps, IsSettled, handle_message,
  handle_message-IsSettled,
}

-- A call of `ReadMessage`: a text, a message of another type, an error that
-- `IsUnexpectedCloseError` recognises, or another error.
pub data Frame : Type 0 where
  text : Bytes → Frame
  not_text unexpectedly_closed lost : Frame

-- `readMessage` into a message that is there.
pub data ReadResult : Type 0 where
  read : RawMessage → ReadResult
  invalid : RawMessage → ReadResult  -- `ErrInvalidWebsocketMessage`
  closed_error : ReadResult
  other_error : ReadResult

-- What `json.Unmarshal` leaves in the message, and whether there is an error.
abbrev pub UnmarshalMessage : Type 0
UnmarshalMessage = Bytes → RawMessage → RawMessage × Bool

unfoldable pub unmarshalled : RawMessage × Bool → ReadResult
unmarshalled (rm, true) = invalid rm
unmarshalled (rm, false) = read rm

unfoldable pub read_message : UnmarshalMessage → RawMessage → Frame → ReadResult
unfolding unmarshalled
read_message unmarshal rm (text message) = unmarshalled (unmarshal message rm)
read_message unmarshal rm not_text = invalid rm
read_message unmarshal rm unexpectedly_closed = closed_error
read_message unmarshal rm lost = other_error

-- The client, the reports, and whether the pump has ended.
abbrev pub Pumped : Type 0
Pumped = Go (WsClient × List Report × Bool)

abbrev with_reports : List Report → WsClient × List Report × Bool → WsClient × List Report × Bool
with_reports reports (c, more, ended) = (c, reports ++ more, ended)

result-cases :
    (x : ReadResult)
    → ((m : RawMessage) × (x ≡ read m))
      ⊎ (((m : RawMessage) × (x ≡ invalid m)) ⊎ ((x ≡ closed_error) ⊎ (x ≡ other_error)))
result-cases (read m) = inl (m, refl)
result-cases (invalid m) = inr (inl (m, refl))
result-cases closed_error = inr (inr (inl refl))
result-cases other_error = inr (inr (inr refl))

module _ (unmarshal : UnmarshalMessage) (decode : Decoders) (host : Host)
    (callbacks : Callbacks) where
  -- `readPump`, from a message that is there on. It hands the old message over again after an error
  -- that is no unexpected close. Without a frame it waits.
  unfoldable pub read_pump : RawMessage → List Frame → WsClient → Pumped
  read_pump rm [] c = done (c, [], false)
  read_pump rm (frame ∷ rest) c = elim (read_message unmarshal rm frame) [
    | invalid rm' ↦ read_pump rm' rest c
    | closed_error ↦ done (on_disconnect c, [], true)
    | read rm' ↦ do
      (c', reports, err) ← handle_message decode host callbacks rm' c
      r ← read_pump rm' rest c'
      done (with_reports reports r)
    | other_error ↦ do
      (c', reports, err) ← handle_message decode host callbacks rm c
      r ← read_pump rm rest c'
      done (with_reports reports r)
  ]

  on_disconnect-IsSettled : (c : WsClient) → IsSettled c → IsSettled (on_disconnect c)
  unfolding on_disconnect
  on_disconnect-IsSettled c v = record {
    synced = λ e. ground (arith, v.synced e);
    prepared = λ e. v.prepared (ground arith);
  }

  -- A message is handled, and then the rest is read.
  handled-IsSettled :
      (m : RawMessage) (rest : List Frame) (c c' : WsClient) (reports : List Report) (ended : Bool)
      → Keeps callbacks.on_tasks
      → Keeps callbacks.on_task
      → Keeps callbacks.on_task_removed
      → IsSettled c
      → ((c1 c2 : WsClient) (rs : List Report) (b : Bool)
          → IsSettled c1
          → read_pump m rest c1 ≡ done (c2, rs, b)
          → IsSettled c2)
      → (handle_message decode host callbacks m c >>= λ x.
          (read_pump m rest x.0 >>= λ r. done (with_reports x.1 r)))
        ≡ done (c', reports, ended)
      → IsSettled c'
  handled-IsSettled m rest c c' reports ended k1 k2 k3 s later k =
      let (x, handled, more) =
        >>=-eq-done (handle_message decode host callbacks m c)
          (λ x. read_pump m rest x.0 >>= λ r. done (with_reports x.1 r)) k in
      let (r, read_on, same) =
        >>=-eq-done (read_pump m rest x.0) (λ r. done (with_reports x.1 r)) more in
      let same_client : r.0 ≡ c' = ground arith in
      subst IsSettled same_client (
        later x.0 r.0 r.1 r.2
          (handle_message-IsSettled decode host callbacks m c x.0 x.1 x.2 k1 k2 k3 s handled)
          read_on)

  pub read_pump-IsSettled :
      (rm : RawMessage) (frames : List Frame) (c c' : WsClient) (reports : List Report)
      (ended : Bool)
      → Keeps callbacks.on_tasks
      → Keeps callbacks.on_task
      → Keeps callbacks.on_task_removed
      → IsSettled c
      → read_pump rm frames c ≡ done (c', reports, ended)
      → IsSettled c'
  unfolding read_pump
  read_pump-IsSettled rm [] c c' reports ended k1 k2 k3 s h =
      let same : c ≡ c' = ground arith in subst IsSettled same s
  read_pump-IsSettled rm (frame ∷ rest) c c' reports ended k1 k2 k3 s h =
      elim (result-cases (read_message unmarshal rm frame)) [
        | inl (m, e) ↦
            handled-IsSettled m rest c c' reports ended k1 k2 k3 s
              (λ a b rs x. read_pump-IsSettled m rest a b rs x k1 k2 k3) (rw (e, read_pump) at h)
        | inr (inl (m, e)) ↦
            read_pump-IsSettled m rest c c' reports ended k1 k2 k3 s (rw (e, read_pump) at h)
        | inr (inr (inl e)) ↦
            let same : on_disconnect c ≡ c' = ground arith in
            subst IsSettled same (on_disconnect-IsSettled c s)
        | inr (inr (inr e)) ↦
            handled-IsSettled rm rest c c' reports ended k1 k2 k3 s
              (λ a b rs x. read_pump-IsSettled rm rest a b rs x k1 k2 k3) (rw (e, read_pump) at h)
      ]

abbrev pub repeated : ℕ → List Report → List Report
repeated zero reports = []
repeated (suc n) reports = reports ++ repeated n reports

abbrev pub losses : ℕ → List Frame
losses zero = []
losses (suc n) = lost ∷ losses n

module _ (unmarshal : UnmarshalMessage) (decode : Decoders) (host : Host)
    (callbacks : Callbacks) where
  -- If the handling of the last message leaves the client as it is, then after any number of further
  -- reads that fail otherwise than by an unexpected close the pump has handled that message so many
  -- times again and has not ended.
  pub read_pump_repeats :
      (n : ℕ) (rm : RawMessage) (c : WsClient) (reports : List Report) (err : Option Error)
      → handle_message decode host callbacks rm c ≡ done (c, reports, err)
      → read_pump unmarshal decode host callbacks rm (losses n) c
        ≡ done (c, repeated n reports, false)
  unfolding read_pump read_message
  read_pump_repeats zero rm c reports err h = refl
  read_pump_repeats (suc n) rm c reports err h =
      ground (arith, read_pump_repeats n rm c reports err h)
