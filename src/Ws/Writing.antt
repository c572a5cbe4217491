-- ===== src/Ws/Writing.antt =====
-- telephonist/wsclient.go: `writePump`, over what its `select` receives and what the connection
-- answers. The waits and deadlines are left out, and so is what a `Write` that fails has taken.
use telephonist_agent.Base.{
  Bytes, List, [], ◌∷◌, ◌++◌, Bool, true, false, not, Option, none, some, ◌≡◌, refl, arith, inl,
  inr, ◌⊎◌,
}
use telephonist_agent.Ws.{WsClient, OMessage}
use telephonist_agent.Ws.Lifecycle.{write_pump_ends}

-- What the connection does with a message: `NextWriter` fails, with an error that
-- `IsUnexpectedCloseError` recognises or not, or it gives a writer, whose `Write` succeeds or not.
pub data Attempt : Type 0 where
  no_writer : Bool → Attempt
  writer : Bool → Attempt

-- A case of the `select`: a message, the closed channel, or the ticker, with a ping that succeeds or
-- not.
pub data Turn : Type 0 where
  received : OMessage → Attempt → Turn
  channel_closed : Turn
  tick : Bool → Turn

-- `json.Marshal`
abbrev pub MarshalMessage : Type 0
MarshalMessage = OMessage → Option Bytes

-- The texts that `Write` took, and whether the pump is still looping, after the encoding and the
-- write.
unfoldable pub encoded : Option Bytes → Bool → List Bytes × Bool
encoded none ok = ([], true)
encoded (some mb) true = (mb ∷ [], true)
encoded (some mb) false = ([], false)

module _ (marshal : MarshalMessage) where
  unfoldable pub on_turn : Turn → List Bytes × Bool
  unfolding encoded
  on_turn (received m (no_writer unexpected)) = ([], not unexpected)
  on_turn (received m (writer ok)) = encoded (marshal m) ok
  on_turn channel_closed = ([], false)
  on_turn (tick ok) = ([], ok)

-- The client, the texts, and whether the pump has ended.
abbrev pub Written : Type 0
Written = WsClient × List Bytes × Bool

-- The loop's condition: either the rest of the loop, or what follows it.
unfoldable pub looping : List Bytes × Bool → WsClient → Written → Written
looping (texts, true) c (c', more, ended) = (c', texts ++ more, ended)
looping (texts, false) c rest = (write_pump_ends c, texts, true)

abbrev marshalled : Option Bytes → List Bytes → List Bytes
marshalled none texts = texts
marshalled (some mb) texts = mb ∷ texts

module _ (marshal : MarshalMessage) where
  -- `writePump`. Without a turn it waits.
  unfoldable pub write_pump : List Turn → WsClient → Written
  unfolding on_turn looping
  write_pump [] c = (c, [], false)
  write_pump (turn ∷ rest) c = looping (on_turn marshal turn) c (write_pump rest c)

  -- A turn in which the connection does what it is asked to.
  pub data IsServed : Turn → Type 0 where
    message_served : (m : OMessage) → IsServed (received m (writer true))
    tick_served : IsServed (tick true)

  pub data AllServed : List Turn → Type 0 where
    none_left : AllServed []
    one_more :
        {turn : Turn} {rest : List Turn} → IsServed turn → AllServed rest → AllServed (turn ∷ rest)

  -- The texts of the messages that are received, without those that `json.Marshal` refuses.
  abbrev pub texts_of : List Turn → List Bytes
  texts_of [] = []
  texts_of (received m attempt ∷ rest) = marshalled (marshal m) (texts_of rest)
  texts_of (channel_closed ∷ rest) = texts_of rest
  texts_of (tick ok ∷ rest) = texts_of rest

  option-cases : (x : Option Bytes) → ((mb : Bytes) × (x ≡ some mb)) ⊎ (x ≡ none)
  option-cases none = inr refl
  option-cases (some mb) = inl (mb, refl)

  -- While the connection gives a writer for each message and takes each text and each ping, the pump
  -- writes the text of every message that it receives and that can be encoded, each once and in their
  -- order; when the channel is closed it ends, and takes no further turn.
  pub write_pump_delivers :
      (turns later : List Turn) (c : WsClient)
      → AllServed turns
      → write_pump (turns ++ channel_closed ∷ later) c ≡ (write_pump_ends c, texts_of turns, true)
  unfolding write_pump on_turn looping encoded
  write_pump_delivers [] later c none_left = refl
  write_pump_delivers (turn ∷ rest) later c (one_more (message_served m) all) =
      elim (option-cases (marshal m)) [
        | inl (mb, e) ↦ ground (e, arith, write_pump_delivers rest later c all)
        | inr e ↦ ground (e, arith, write_pump_delivers rest later c all)
      ]
  write_pump_delivers (turn ∷ rest) later c (one_more tick_served all) =
      ground (arith, write_pump_delivers rest later c all)

abbrev pub refusals : List OMessage → List Turn
refusals [] = []
refusals (m ∷ rest) = received m (no_writer false) ∷ refusals rest

module _ (marshal : MarshalMessage) where
  -- However many messages the pump receives, when `NextWriter` fails for each otherwise than by an
  -- unexpected close, the pump writes none of them and goes on receiving.
  pub write_pump_swallows :
      (messages : List OMessage) (c : WsClient)
      → write_pump marshal (refusals messages) c ≡ (c, [], false)
  unfolding write_pump on_turn looping
  write_pump_swallows [] c = refl
  write_pump_swallows (m ∷ rest) c = ground (arith, write_pump_swallows rest c)

pub data IsSublist : List Bytes → List Bytes → Type 0 where
  ended : {ys : List Bytes} → IsSublist [] ys
  kept : {x : Bytes} {xs ys : List Bytes} → IsSublist xs ys → IsSublist (x ∷ xs) (x ∷ ys)
  skipped : {y : Bytes} {xs ys : List Bytes} → IsSublist xs ys → IsSublist xs (y ∷ ys)

marshalled-skips :
    (x : Option Bytes) {xs ys : List Bytes} → IsSublist xs ys → IsSublist xs (marshalled x ys)
marshalled-skips none s = s
marshalled-skips (some mb) s = skipped s

encoded-IsSublist :
    (x : Option Bytes) (ok : Bool) (c : WsClient) (w : Written) {ys : List Bytes}
    → IsSublist w.1 ys
    → IsSublist ((looping (encoded x ok) c w).1) (marshalled x ys)
unfolding looping encoded
encoded-IsSublist none ok c w s = s
encoded-IsSublist (some mb) true c w s = kept s
encoded-IsSublist (some mb) false c w s = ended

module _ (marshal : MarshalMessage) where
  -- Whatever the pump receives and whatever fails, the texts that it writes are those of messages
  -- that it was given, each at most once, in their order.
  pub write_pump-IsSublist :
      (turns : List Turn) (c : WsClient)
      → IsSublist ((write_pump marshal turns c).1) (texts_of marshal turns)
  unfolding write_pump on_turn looping encoded
  write_pump-IsSublist [] c = ended
  write_pump-IsSublist (received m (no_writer true) ∷ rest) c = ended
  write_pump-IsSublist (received m (no_writer false) ∷ rest) c =
      marshalled-skips (marshal m) (write_pump-IsSublist rest c)
  write_pump-IsSublist (received m (writer ok) ∷ rest) c =
      encoded-IsSublist (marshal m) ok c (write_pump marshal rest c) (write_pump-IsSublist rest c)
  write_pump-IsSublist (channel_closed ∷ rest) c = ended
  write_pump-IsSublist (tick true ∷ rest) c = write_pump-IsSublist rest c
  write_pump-IsSublist (tick false ∷ rest) c = ended
