-- ===== src/Cli/Init/Keys.antt =====
-- app.go: what the dialogue of `init` leaves, and where it does not end.
use telephonist_agent.Base.{
  ◌≡◌, ◌≢◌, ◌⊎◌, inl, inr, refl, sym, ◌∙◌, ap, Bytes, [], ◌∷◌, Bool, true, false, Option, none,
  some, Bytes-discrete, done, panic, ◌>>=◌, >>=-eq-done, arith, Option-cases, Sum-cases,
}
use mathlib.Core.Path.{subst}
use telephonist_agent.Rest.Address.{Url}
use telephonist_agent.Errors.{Error}
use telephonist_agent.Rest.{Gorequest, Response, Client, new_client}
use telephonist_agent.Rest.Payloads.{CreateApplicationRequest}
use telephonist_agent.Rest.Endpoints.{submit_code_registration}
use telephonist_agent.Config.{Json, load_or_create}
use telephonist_agent.Cli.Dialogue.{Console, trim, space}
use telephonist_agent.Cli.Dialogue.Trimming.{key_space, line_key, line_text, IsLine, same_space}
use telephonist_agent.Cli.Startup.{AppConfig, prepare_config}
use telephonist_agent.Cli.Init.{
  Session, Surroundings, enter_url, init_action, input_key, asked, save, address_dialogue,
  submit_codes, start_cr_procedure, change_key, change_url, changed, set_key, set_address, ended,
  register, described, first_key, new_key, saved, key_dialogue,
}

abbrev pub IsLines : Console → Type 0
IsLines [] = Unit {0}
IsLines (line ∷ rest) = IsLine line × IsLines rest

module _ {W : Type 0} (http : Gorequest W) (json : Json AppConfig) (s : Surroundings) where
  input_key-usable :
      (console c' : Console) (key : Bytes)
      → input_key http json s console ≡ done (c', key)
      → trim key_space key ≢ []
  unfolding input_key
  input_key-usable [] c' key h = absurd (ground arith)
  input_key-usable (line ∷ rest) c' key h =
      elim (Bytes-discrete (trim (32 ∷ 10 ∷ 9 ∷ []) line) []) [
        | yes p ↦ input_key-usable rest c' key (ground arith)
        | no p ↦ ground (arith, line_key line p)
      ]

  -- The key is that of an answer that the registration of a typed code got without an error.
  abbrev pub IsIssued : Bytes → Type 0
  IsIssued key =
      (line : Bytes) × (request : CreateApplicationRequest) × (client : Client) × (w : W)
      × (r : Option Response) × ((submit_code_registration http s.encode (trim space line) request
            client w).1
          ≡ inl r)
      × (key ≡ s.key_of r)

  -- The key is not blank, or it was issued.
  HasKey : Session W → Type 0
  HasKey a = (trim key_space a.config.application_key ≢ []) ⊎ IsIssued a.config.application_key

  submit_codes-HasKey :
      (client : Client) (request : CreateApplicationRequest) (console : Console) (a a' : Session W)
      (b : Bool)
      → submit_codes http json s client request console a ≡ done (a', b)
      → HasKey a'
  unfolding submit_codes set_key HasKey
  submit_codes-HasKey client request [] a a' b h = absurd (ground arith)
  submit_codes-HasKey client request (line ∷ rest) a a' b h =
      let sent = submit_code_registration http s.encode (trim space line) request client a.world in
      elim (Sum-cases sent.1) [
        | inl (response, e) ↦ inr (line, request, client, a.world, response, e, ground arith)
        | inr (err, e) ↦
            submit_codes-HasKey client request rest (record a { console = rest; world = sent.0 }) a'
              b (ground arith)
      ]

  ended-same : (x : Session W × Bool) (a' : Session W) → ended http json s x ≡ done a' → x.0 ≡ a'
  unfolding ended
  ended-same (a, true) a' h = ground arith
  ended-same (a, false) a' h = absurd (ground arith)

  register-HasKey :
      (u : Url) (a a' : Session W) (x : Console × CreateApplicationRequest)
      → register http json s u a x ≡ done a'
      → HasKey a'
  unfolding register
  register-HasKey u a a' (console, request) h = elim (Sum-cases (new_client [] (some u))) [
    | inr (err, e) ↦ absurd (ground arith)
    | inl (client, e) ↦
        let (x, sent, same) =
          >>=-eq-done (submit_codes http json s client request console a) (ended http json s)
            (rw (e, register) at h) in
        subst HasKey (ended-same x a' same)
          (submit_codes-HasKey client request console a x.0 x.1 sent)
  ]

  start_cr_procedure-HasKey :
      (a a' : Session W) → start_cr_procedure http json s a ≡ done a' → HasKey a'
  unfolding start_cr_procedure
  start_cr_procedure-HasKey a a' h = elim (Sum-cases (s.parse a.config.telephonist_address)) [
    | inr (err, e) ↦ absurd (ground arith)
    | inl (u, e) ↦
        let (x, asked_for, sent) =
          >>=-eq-done (described http json s a.console) (register http json s u a)
            (rw (e, start_cr_procedure) at h) in
        register-HasKey u a a' x sent
  ]

  change_key-HasKey :
      (a a' : Session W) (console : Console)
      → IsLines console
      → trim key_space a.config.application_key ≢ []
      → change_key http json s a console ≡ done a'
      → HasKey a'
  unfolding change_key set_key HasKey
  change_key-HasKey a a' [] lines full h = absurd (ground arith)
  change_key-HasKey a a' (line ∷ rest) (ok, lines) full h =
      elim (Bytes-discrete (trim (32 ∷ 9 ∷ []) line) []) [
        | yes p ↦ inl (λ e. full (ground arith))
        | no p ↦ inl (λ e. line_text line ok p (ground arith))
      ]

  first_key-HasKey :
      (x : Session W × Bool) (a' : Session W) → first_key http json s x ≡ done a' → HasKey a'
  unfolding first_key new_key set_key HasKey
  first_key-HasKey (a, true) a' h = start_cr_procedure-HasKey a a' h
  first_key-HasKey (a, false) a' h =
      let (x, read, same) =
        >>=-eq-done (input_key http json s a.console) (new_key http json s a) h in
      inl (λ e. input_key-usable a.console x.0 x.1 read (ground arith))

  enter_url-panics : (console : Console) → enter_url http json s console ≡ panic
  unfolding enter_url
  enter_url-panics [] = refl
  enter_url-panics (line ∷ rest) = enter_url-panics rest

  change_url-IsLines :
      (console c' : Console) (old text : Bytes)
      → IsLines console
      → change_url http json s console old ≡ done (c', text)
      → IsLines c'
  unfolding change_url
  change_url-IsLines [] c' old text ok h = absurd (ground arith)
  change_url-IsLines (line ∷ rest) c' old text (ok, oks) h =
      elim (Bytes-discrete (trim (32 ∷ 10 ∷ 9 ∷ []) line) []) [
        | yes p ↦ let same : rest ≡ c' = ground arith in subst IsLines same oks
        | no p ↦ elim (Sum-cases (s.parse line)) [
          | inl (u, e) ↦ let same : rest ≡ c' = ground arith in subst IsLines same oks
          | inr (err, e) ↦ change_url-IsLines rest c' old text oks (ground arith)
        ]
      ]

  address_dialogue-IsLines :
      (a a' : Session W)
      → IsLines a.console
      → address_dialogue http json s a ≡ done a'
      → IsLines a'.console
  unfolding address_dialogue changed set_address
  address_dialogue-IsLines a a' ok h =
      elim (Bytes-discrete (trim (32 ∷ 9 ∷ 10 ∷ []) a.config.telephonist_address) []) [
        | yes p ↦ absurd (ground (arith, enter_url-panics a.console))
        | no p ↦
            let (x, read, same) =
              >>=-eq-done (change_url http json s a.console a.config.telephonist_address)
                (changed http json s a) {b = a'} (ground arith) in
            let left : x.0 ≡ a'.console = ground arith in
            subst IsLines left
              (change_url-IsLines a.console x.0 a.config.telephonist_address x.1 ok read)
      ]

  key_dialogue-HasKey :
      (a a' : Session W) → IsLines a.console → key_dialogue http json s a ≡ done a' → HasKey a'
  unfolding key_dialogue
  key_dialogue-HasKey a a' ok h =
      elim (Bytes-discrete (trim (32 ∷ 10 ∷ 9 ∷ []) a.config.application_key) []) [
        | yes p ↦
            let (x, read, same) =
              >>=-eq-done (asked http json s a) (first_key http json s) (ground arith) in
            first_key-HasKey x a' same
        | no p ↦
            change_key-HasKey a a' a.console ok (λ e. p (same_space a.config.application_key e))
              (ground arith)
      ]

  asked-config :
      (a : Session W) (x : Session W × Bool) → asked http json s a ≡ done x → x.0.config ≡ a.config
  unfolding asked
  asked-config a x h = ground arith

  saved-config :
      (x : Session W × Bool) (a' : Session W)
      → saved http json s x ≡ done a'
      → a'.config ≡ x.0.config
  unfolding saved
  saved-config (a, true) a' h = ground arith
  saved-config (a, false) a' h = ground arith

  save-HasKey : (a a' : Session W) → HasKey a → save http json s a ≡ done a' → HasKey a'
  unfolding save HasKey
  save-HasKey a a' k h =
      let (x, read, same) = >>=-eq-done (asked http json s a) (saved http json s) h in
      let same_config : a'.config ≡ a.config = saved-config x a' same ∙ asked-config a x read in
      elim k [
        | inl usable ↦
            inl (λ e. usable (ap (λ c. trim key_space c.application_key) (sym same_config) ∙ e))
        | inr (line, request, client, w, r, answer, issued) ↦
            inr (
              line,
              request,
              client,
              w,
              r,
              answer,
              ap (λ c. c.application_key) same_config ∙ issued,
            )
      ]

  init_action-HasKey :
      (a a' : Session W) → IsLines a.console → init_action http json s a ≡ done a' → HasKey a'
  unfolding init_action
  init_action-HasKey a a' ok h = elim (Option-cases (load_or_create json a.config a.file).2) [
    | inr (err, e) ↦ absurd (ground arith)
    | inl fine ↦
        let r = load_or_create json a.config a.file in
        let a1 : Session W = record a { config = r.0; file = r.1 } in
        let (a3, keyed, stored) =
          >>=-eq-done (address_dialogue http json s a1 >>= key_dialogue http json s)
            (save http json s) (rw (fine, init_action) at h) in
        let (a2, addressed, named) =
          >>=-eq-done (address_dialogue http json s a1) (key_dialogue http json s) keyed in
        save-HasKey a3 a'
          (key_dialogue-HasKey a2 a3 (address_dialogue-IsLines a1 a2 ok addressed) named) stored
  ]

  pub init_action-prepared :
      (key_missing : Error) (a a' : Session W)
      → IsLines a.console
      → init_action http json s a ≡ done a'
      → ((prepare_config key_missing a'.config).1 ≡ none) ⊎ IsIssued a'.config.application_key
  unfolding HasKey prepare_config
  init_action-prepared key_missing a a' ok h = elim (init_action-HasKey a a' ok h) [
    | inl usable ↦ inl (ground arith)
    | inr issued ↦ inr issued
  ]

  -- When the configuration is loaded without an error and its address is blank, `init` ends in a
  -- panic, whatever is typed and whatever the server answers.
  pub init_action_panics :
      (a : Session W)
      → let r = load_or_create json a.config a.file in
        r.2 ≡ none
        → trim (32 ∷ 9 ∷ 10 ∷ []) r.0.telephonist_address ≡ []
        → init_action http json s a ≡ panic
  unfolding init_action address_dialogue
  init_action_panics a fine empty = ground (arith, enter_url-panics a.console)
