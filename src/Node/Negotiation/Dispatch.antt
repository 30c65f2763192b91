-- ===== src/Node/Negotiation/Dispatch.antt =====
-- Which protocol answers a request: handler.ts of packages/connect-node/src.
use connect_web.Prelude.{
  Bool, true, false, ◌&&◌, List, [], ◌∷◌, ◌≡◌, refl, sym, ap, ◌∙◌, inl, inr, Option, none, some,
  arith, if◌then◌else◌, Bool-cases, Option-cases,
}
use connect_web.Text.{Text, codes, ◌===◌, starts_with}
use connect_web.Headers.{get}
use connect_web.ConnectError.{Result, ok}
use connect_web.Node.Universal.{
  ServerRequest, ServerResponse, response_unsupported_media_type, response_method_not_allowed,
}
use connect_web.Node.Handler.{method_post}
use connect_web.Node.Negotiation.{
  UniversalHandler, supports, allows, includes, first_match, some_supports, some_allows,
  refuse_request, content_type_of, protocol_negotiating_handler,
}

-- the first handler for a content type
abbrev pub first_supporting : List UniversalHandler → Text → Option UniversalHandler
unfolding supports
first_supporting [] content_type = none
first_supporting (h ∷ hs) content_type =
    let rest = first_supporting hs content_type in if supports h content_type then some h else rest

abbrev pub AllPost : List UniversalHandler → Type 0
AllPost [] = Unit {0}
AllPost (h ∷ hs) = (h.allowed_methods ≡ method_post ∷ []) × AllPost hs

-- the answer by the content type first, and then by the method
abbrev pub dispatched : Option UniversalHandler → ServerRequest → Result ServerResponse
unfolding ◌===◌
dispatched none request = ok response_unsupported_media_type
dispatched (some h) request =
    if method_post === request.method then h.handle request else ok response_method_not_allowed

allows_post :
    (h : UniversalHandler) (method : Text)
    → h.allowed_methods ≡ method_post ∷ []
    → allows h method ≡ method_post === method
unfolding allows includes
allows_post h method e = ground arith

-- the three loops, for handlers that allow POST only
first_match-first_supporting :
    (hs : List UniversalHandler) (content_type method : Text)
    → AllPost hs
    → first_match hs content_type method
      ≡ (if method_post === method then first_supporting hs content_type else none)
unfolding first_match
first_match-first_supporting [] content_type method p = ground arith
first_match-first_supporting (h ∷ hs) content_type method (p, ps) =
    ground (arith, allows_post h method p, first_match-first_supporting hs content_type method ps)

some_supports-first_supporting :
    (hs : List UniversalHandler) (content_type : Text)
    → some_supports hs content_type
      ≡ elim (first_supporting hs content_type) [ none ↦ false | some h ↦ true ]
unfolding some_supports
some_supports-first_supporting [] content_type = refl
some_supports-first_supporting (h ∷ hs) content_type =
    ground (arith, some_supports-first_supporting hs content_type)

some_allows-not_post :
    (hs : List UniversalHandler) (method : Text)
    → AllPost hs
    → (method_post === method) ≡ false
    → some_allows hs method ≡ false
unfolding some_allows
some_allows-not_post [] method p e = refl
some_allows-not_post (h ∷ hs) method (p, ps) e =
    ground (arith, allows_post h method p, some_allows-not_post hs method ps e)

module _ (hs : List UniversalHandler) (content_type method : Text) where
  refused_type :
      first_supporting hs content_type ≡ none
      → refuse_request hs content_type method ≡ response_unsupported_media_type
  unfolding refuse_request
  refused_type f = rw (some_supports-first_supporting hs content_type, f) refl

  refused_method :
      (h : UniversalHandler)
      → AllPost hs
      → first_supporting hs content_type ≡ some h
      → (method_post === method) ≡ false
      → refuse_request hs content_type method ≡ response_method_not_allowed
  unfolding refuse_request
  refused_method h p f m =
      rw (some_supports-first_supporting hs content_type, f, some_allows-not_post hs method p m)
        refl

  no_match :
      AllPost hs
      → first_supporting hs content_type ≡ none
      → first_match hs content_type method ≡ none
  no_match p f = first_match-first_supporting hs content_type method p ∙ rw f (ground arith)

  matched :
      (b : Bool)
      → AllPost hs
      → (method_post === method) ≡ b
      → first_match hs content_type method ≡ (if b then first_supporting hs content_type else none)
  matched b p m = first_match-first_supporting hs content_type method p ∙ rw m refl

answer :
    List UniversalHandler → Text → ServerRequest → Option UniversalHandler → Result ServerResponse
unfolding refuse_request
answer hs content_type request (some h) = h.handle request
answer hs content_type request none = ok (refuse_request hs content_type request.method)

answered :
    (hs : List UniversalHandler) (content_type : Text) (request : ServerRequest)
    → AllPost hs
    → answer hs content_type request (first_match hs content_type request.method)
      ≡ dispatched (first_supporting hs content_type) request
unfolding answer dispatched
answered hs content_type request p = elim (Option-cases (first_supporting hs content_type)) [
  | inl f ↦
      ap (answer hs content_type request) (no_match hs content_type request.method p f)
      ∙ ap ok (refused_type hs content_type request.method f)
      ∙ sym (ap (λ o. dispatched o request) f)
  | inr (h, f) ↦ elim (Bool-cases (method_post === request.method)) [
    | inl m ↦
        ap (answer hs content_type request) (matched hs content_type request.method true p m ∙ f)
        ∙ sym (ap (λ o. dispatched o request) f ∙ rw m refl)
    | inr m ↦
        ap (answer hs content_type request) (matched hs content_type request.method false p m)
        ∙ ap ok (refused_method hs content_type request.method h p f m)
        ∙ sym (ap (λ o. dispatched o request) f ∙ rw m refl)
  ]
]

answer-elim :
    (hs : List UniversalHandler) (content_type : Text) (request : ServerRequest)
    (o : Option UniversalHandler)
    → elim o [
      | some h ↦ h.handle request
      | none ↦ ok (refuse_request hs content_type request.method)
    ]
      ≡ answer hs content_type request o
unfolding answer dispatched
answer-elim hs content_type request none = refl
answer-elim hs content_type request (some h) = refl

-- Where every handler allows POST only, a request that is not a bidirectional stream over HTTP/1 goes
-- to the first handler that supports its content type; without one the answer is 415, and with a method
-- other than POST it is 405.
pub protocol_negotiating_handler-dispatched :
    (bidi_streaming : Bool) (hs : List UniversalHandler) (request : ServerRequest)
    → AllPost hs
    → (bidi_streaming && starts_with (codes "1.") request.http_version) ≡ false
    → protocol_negotiating_handler bidi_streaming hs request
      ≡ dispatched
          (first_supporting hs (content_type_of (get request.header (codes "Content-Type"))))
          request
unfolding protocol_negotiating_handler refuse_request
protocol_negotiating_handler-dispatched bidi_streaming hs request p v =
    let content_type = content_type_of (get request.header (codes "Content-Type")) in
    rw v (
      answer-elim hs content_type request (first_match hs content_type request.method)
      ∙ answered hs content_type request p)
