-- ===== src/Rest/Outcomes.antt =====
-- telephonist/client.go: what the calls return, over all answers.
use telephonist_agent.Base.{
  ℕ, ◌≡◌, ◌≢◌, ite, [], ◌<◌, dec_lt, ◌↔◌, refl, Bytes, Bool, Option, none, some, done, arith, ◌⊎◌,
  inl, inr, Option-cases, Sum-cases, ℕ_discrete, codes, ◌++◌,
}
use telephonist_agent.Errors.{
  Error, Errors, combined, message, unexpected_status_code, error_text, nil, cons,
}
use telephonist_agent.Rest.{
  Answer, Response, Gorequest, Client, one_error, text_of, unexpected, finish, posted, call, get,
  get_request, http_post, sent, invalid, post_request,
}
use telephonist_agent.Rest.Payloads.{Payload}
use telephonist_agent.Rest.Endpoints.{issue_ws_ticket, ticket_of, ticket_request}

-- The errors are those that the client makes of what it is given.
abbrev pub IsCombined : Option Error → Type 0
IsCombined none = Unit {0}
IsCombined (some (combined es)) = Unit {0}
IsCombined (some e) = ⊥

-- An answer without errors has a response.
abbrev pub IsAnswer : Answer → Type 0
IsAnswer a = a.errors ≡ nil → a.response ≢ none

abbrev pub IsLow : Option Response → Type 0
IsLow none = ⊥
IsLow (some r) = r.status_code < 300

-- An answer without errors whose status is below 300.
abbrev pub IsGood : Answer → Type 0
IsGood a = (a.errors ≡ nil) × IsLow a.response

finish_of :
    (es : Errors) (resp : Option Response)
    → let a : Answer = record { errors = es; response = resp } in
      IsAnswer a
      → (err : Option Error) × (finish a ≡ done err) × IsCombined err × ((err ≡ none) ↔ IsGood a)
unfolding finish
finish_of (cons e es) resp h =
    (some (combined (cons e es)), refl, tt, ((λ q. absurd (cc)), λ g. absurd (ground (arith, g.0))))
finish_of nil none h = absurd (h refl refl)
finish_of nil (some r) h = elim (dec_lt r.status_code 300) [
  | yes p ↦ (none, ground arith, tt, ((λ q. (refl, p)), λ g. refl))
  | no p ↦ (some (unexpected r []), ground arith, tt, ((λ q. absurd (cc)), λ g. absurd (p g.1)))
]

posted_of :
    (es : Errors) (resp : Option Response)
    → let a : Answer = record { errors = es; response = resp } in
      IsAnswer a → IsCombined (posted a).1 × (((posted a).1 ≡ none) ↔ IsGood a)
unfolding posted
posted_of (cons e es) resp h = (tt, ((λ q. absurd (cc)), λ g. absurd (ground (arith, g.0))))
posted_of nil none h = absurd (h refl refl)
posted_of nil (some r) h =
    elim (dec_lt r.status_code 300)
      as (λ d.
        let x : Option Response × Option Error =
          ite d (some r, none) (some r, some (unexpected r (text_of r.body))) in
        IsCombined x.1 × ((x.1 ≡ none) ↔ IsGood (record { errors = nil; response = some r }))) [
          | yes p ↦ (tt, ((λ q. (refl, p)), λ g. refl))
          | no p ↦ (tt, ((λ q. absurd (cc)), λ g. absurd (p g.1)))
        ]

module _ {W : Type 0} (http : Gorequest W) where
  -- When an answer without errors has a response, `get` returns; its error is always a
  -- `CombinedError`, and there is none just when the answer has none and its status is below 300.
  pub get_outcome :
      (path : Bytes) (wanted : Bool) (c : Client) (w : W)
      → let r = call http wanted (get_request http path c) w in
        IsAnswer r.1
        → (err : Option Error) × (get http path wanted c w ≡ done (r.0, err))
          × IsCombined err
          × ((err ≡ none) ↔ IsGood r.1)
  unfolding get
  get_outcome path wanted c w h =
      let r = call http wanted (get_request http path c) w in
      let (err, e, k, i) = finish_of r.1.errors r.1.response h in (err, ground arith, k, i)

module _ {W : Type 0} (http : Gorequest W) (validate : Payload → Option Error) where
  -- When an answer without errors has a response, the error of `httpPost` is always a
  -- `CombinedError`; a payload that the validator refuses is not sent; and there is no error just
  -- when the payload is not refused, the answer has no error and its status is below 300.
  pub http_post_outcome :
      (path : Bytes) (payload : Payload) (wanted : Bool) (c : Client) (w : W)
      → let sent_to = call http wanted (post_request http validate path payload c) w in
        let r = http_post http validate path payload wanted c w in
        IsAnswer sent_to.1
        → IsCombined r.2
          × (invalid http validate payload ≢ none → r.0 ≡ w)
          × ((r.2 ≡ none) ↔ ((invalid http validate payload ≡ none) × IsGood sent_to.1))
  unfolding http_post
  http_post_outcome path payload wanted c w h =
      let r = call http wanted (post_request http validate path payload c) w in
      let (k, i) = posted_of r.1.errors r.1.response h in
      elim (Option-cases (invalid http validate payload)) [
        | inl valid ↦
            let e : http_post http validate path payload wanted c w
                ≡ sent http validate path payload wanted c w =
              ground arith in
            rw e (k, (λ n. absurd (n valid)), ((λ q. (valid, i.0 q)), λ g. i.1 g.1))
        | inr (err, bad) ↦
            let e : http_post http validate path payload wanted c w
                ≡ (w, none, some (one_error err)) =
              ground arith in
            rw e (tt, (λ n. refl), ((λ q. absurd (cc)), λ g. absurd (cc)))
      ]

-- A response with status 200 from which a ticket is decoded.
abbrev pub GivesTicket : (Response → Bytes ⊎ Error) → Bytes → Option Response → Type 0
GivesTicket decode text none = ⊥
GivesTicket decode text (some r) = (r.status_code ≡ 200) × (decode r ≡ inl text)

module _ {W : Type 0} (http : Gorequest W) (strerror : ℕ → Bytes)
    (decode : Response → Bytes ⊎ Error) where
  -- What `issueWSTicket` is to make of an answer.
  abbrev pub TicketOutcome : Answer → Errors ⊎ Bytes → Type 0
  TicketOutcome a t =
      (t ≢ inl nil)
      × ((text : Bytes) → (t ≡ inr text) ↔ ((a.errors ≡ nil) × GivesTicket decode text a.response))

  ticket_of-outcome :
      (es : Errors) (resp : Option Response)
      → let a : Answer = record { errors = es; response = resp } in
        IsAnswer a
        → (t : Errors ⊎ Bytes) × (ticket_of http strerror decode a ≡ done t) × TicketOutcome a t
  unfolding ticket_of
  ticket_of-outcome (cons e es) resp h = (
    inl (cons e es),
    refl,
    ((λ q. cc), λ text. ((λ q. absurd (cc)), λ g. absurd (ground (arith, g.0)))),
  )
  ticket_of-outcome nil none h = absurd (h refl refl)
  ticket_of-outcome nil (some r) h = elim (ℕ_discrete r.status_code 200) [
    | no p ↦ (
      inl (cons (unexpected_status_code r.status_code r.status []) nil),
      ground arith,
      ((λ q. cc), λ text. ((λ q. absurd (cc)), λ g. absurd (p g.1.0))),
    )
    | yes p ↦ elim (Sum-cases (decode r)) [
      | inl (ticket, d) ↦
          (inr ticket, ground arith, ((λ q. cc), λ text. ((λ q. (refl, (p, cc))), λ g. cc)))
      | inr (err, d) ↦ (
        inl (
            cons
              (message (
                codes "failed to decode backend response (WS ticket): " ++ error_text strerror err))
              nil),
        ground arith,
        ((λ q. cc), λ text. ((λ q. absurd (cc)), λ g. absurd (cc))),
      )
    ]
  ]

  -- When an answer without errors has a response, `issueWSTicket` returns; it gives a ticket just
  -- when there is no error, the status is 200 and the body decodes to that ticket, and otherwise at
  -- least one error.
  pub issue_ws_ticket_outcome :
      (c : Client) (w : W)
      → let r = http.end (ticket_request http c) w in
        IsAnswer r.1
        → (t : Errors ⊎ Bytes) × (issue_ws_ticket http strerror decode c w ≡ done (r.0, t))
          × TicketOutcome r.1 t
  unfolding issue_ws_ticket
  issue_ws_ticket_outcome c w h =
      let r = http.end (ticket_request http c) w in
      let (t, e, o) = ticket_of-outcome r.1.errors r.1.response h in (t, ground arith, o)
