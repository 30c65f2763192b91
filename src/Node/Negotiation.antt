-- ===== src/Node/Negotiation.antt =====
-- handler.ts of packages/connect-node/src: the handler of one method for all protocols, and of many
-- methods by their paths.
pub mod Dispatch
pub mod Options
use connect_web.Prelude.{
  Bool, true, false, not, ◌&&◌, ◌||◌, List, [], ◌∷◌, ◌++◌, map, Option, none, some, if◌then◌else◌,
}
use connect_web.Text.{Text, codes, ◌===◌, starts_with}
use connect_web.Code.{invalid_argument}
use connect_web.Pattern.{Pattern}
use connect_web.Headers.{get}
use connect_web.Envelope.{Compression}
use connect_web.ConnectError.{Result, ok, throw_error, ◌>>=◌}
use connect_web.Compression.{PartialOptions, CompressionOptions, compression_validate_options}
use connect_web.Node.Universal.{
  ServerRequest, ServerResponse, response_unsupported_media_type, response_method_not_allowed,
  response_version_not_supported,
}
use connect_web.Node.Handler.{HandlerInit}
use connect_web.Connect.ContentType.{matches_type}

-- `UniversalHandler`, without the descriptions of its service and method. The pattern is matched
-- without regard to case.
pub record UniversalHandler : Type 0 where
  pub handle : ServerRequest → Result ServerResponse
  pub protocol_names : List Text
  pub supported_content_type : Pattern
  pub allowed_methods : List Text
  pub request_path : Text

includes : List Text → Text → Bool
includes [] s = false
includes (x ∷ xs) s = x === s || includes xs s

supports : UniversalHandler → Text → Bool
unfolding matches_type
supports h content_type = matches_type h.supported_content_type content_type

allows : UniversalHandler → Text → Bool
unfolding includes
allows h method = includes h.allowed_methods method

-- `handlers.filter(...).shift()`
unfoldable pub first_match : List UniversalHandler → Text → Text → Option UniversalHandler
unfolding supports allows
first_match [] content_type method = none
first_match (h ∷ hs) content_type method =
    let rest = first_match hs content_type method in
    if supports h content_type && allows h method then some h else rest

unfoldable pub some_supports : List UniversalHandler → Text → Bool
unfolding supports
some_supports [] content_type = false
some_supports (h ∷ hs) content_type = supports h content_type || some_supports hs content_type

unfoldable pub some_allows : List UniversalHandler → Text → Bool
unfolding allows
some_allows [] method = false
some_allows (h ∷ hs) method = allows h method || some_allows hs method

unfoldable pub content_type_of : Option Text → Text
content_type_of none = []
content_type_of (some s) = s

-- without a handler that matches
unfoldable pub refuse_request : List UniversalHandler → Text → Text → ServerResponse
unfolding some_supports some_allows
refuse_request handlers content_type method =
    if not (some_supports handlers content_type)
    then response_unsupported_media_type
    else if not (some_allows handlers method)
    then response_method_not_allowed
    else response_unsupported_media_type

-- the answer to a bidirectional stream over HTTP/1, which closes the connection
abbrev pub version_not_supported : ServerResponse
version_not_supported = record response_version_not_supported {
  header = some ((codes "connection", codes "close") ∷ []);
}

-- `protocolNegotiatingHandler`
unfoldable pub protocol_negotiating_handler :
    Bool → List UniversalHandler → ServerRequest → Result ServerResponse
unfolding first_match refuse_request get content_type_of
protocol_negotiating_handler bidi_streaming handlers request =
    if bidi_streaming && starts_with (codes "1.") request.http_version
    then ok version_not_supported
    else (let content_type = content_type_of (get request.header (codes "Content-Type")) in
        elim (first_match handlers content_type request.method) [
          | some h ↦ h.handle request
          | none ↦ ok (refuse_request handlers content_type request.method)
        ])

-- `filter((value, index, array) => array.indexOf(value) === index)`, behind the values that were seen
unfoldable pub unique_from : List Text → List Text → List Text
unfolding includes
unique_from seen [] = []
unique_from seen (x ∷ xs) = elim (includes seen x) [
  | true ↦ unique_from seen xs
  | false ↦ x ∷ unique_from (x ∷ seen) xs
]

unfoldable pub flat_map : (UniversalHandler → List Text) → List UniversalHandler → List Text
flat_map f [] = []
flat_map f (h ∷ hs) = f h ++ flat_map f hs

-- what `createHandler` returns, without the description of the service and the method
pub record Handler : Type 0 where
  pub respond : ServerRequest → Result ServerResponse
  pub request_path : Text
  pub supported_content_types : List Pattern
  pub protocol_names : List Text
  pub allowed_methods : List Text

unfoldable pub create_handler : Bool → Text → List UniversalHandler → Handler
unfolding protocol_negotiating_handler unique_from flat_map
create_handler bidi_streaming path handlers = record {
  respond = protocol_negotiating_handler bidi_streaming handlers;
  request_path = path;
  supported_content_types = map (λ (h : UniversalHandler). h.supported_content_type) handlers;
  protocol_names = unique_from [] (flat_map (λ (h : UniversalHandler). h.protocol_names) handlers);
  allowed_methods =
      unique_from [] (flat_map (λ (h : UniversalHandler). h.allowed_methods) handlers);
}

-- `mergeHandlers`: the handler that a request goes to, by its URL, or `none` for the fallback
unfoldable pub merge_handlers : List Handler → Option Text → Text → Option Handler
unfolding content_type_of
merge_handlers [] prefix url = none
merge_handlers (h ∷ hs) prefix url =
    let rest = merge_handlers hs prefix url in
    if url === content_type_of prefix ++ h.request_path then some h else rest

-- `HandlerOptions`
pub record HandlerOptions : Type 0 where
  pub grpc : Option Bool
  pub grpc_web : Option Bool
  pub connect : Option Bool
  pub accept_compression : Option (List Compression)
  pub limits : PartialOptions

-- `option !== false`
unless_false : Option Bool → Bool
unless_false none = true
unless_false (some b) = b

or_list : {A : Type 0} → Option (List A) → List A → List A
or_list none xs = xs
or_list (some ys) xs = ys

unfoldable pub handler_init : HandlerOptions → List Compression → CompressionOptions → HandlerInit
unfolding or_list
handler_init init defaults limits = record {
  accept_compression = or_list init.accept_compression defaults;
  compress_min_bytes = limits.compress_min_bytes;
  read_max_bytes = limits.read_max_bytes;
  write_max_bytes = limits.write_max_bytes;
}

-- the functions that create the handlers of the three protocols
pub record Protocols (F : Type 0) : Type 0 where
  pub create_grpc : HandlerInit → Result F
  pub create_grpc_web : HandlerInit → Result F
  pub create_connect : HandlerInit → Result F

-- `if (option !== false) { protocols.push(create(hpo)) }`
enabled : {F : Type 0} → Option Bool → Result F → Result (List F)
unfolding unless_false
enabled option created = if unless_false option then created >>= (λ f. ok (f ∷ [])) else ok []

some_protocol : {F : Type 0} → List F → Result (List F)
some_protocol [] =
    throw_error (codes "cannot create handler, all protocols are disabled") invalid_argument
some_protocol (f ∷ fs) = ok (f ∷ fs)

-- `internalHandlerOptions`, for options as a user gives them: the protocols
unfoldable pub internal_handler_options :
    {F : Type 0} → Protocols F → List Compression → HandlerOptions → Result (List F)
unfolding handler_init enabled some_protocol compression_validate_options
internal_handler_options protocols defaults init = do
  limits ← compression_validate_options init.limits
  grpc ← enabled init.grpc (protocols.create_grpc (handler_init init defaults limits))
  grpc_web ← enabled init.grpc_web (protocols.create_grpc_web (handler_init init defaults limits))
  connect ← enabled init.connect (protocols.create_connect (handler_init init defaults limits))
  some_protocol (grpc ++ (grpc_web ++ connect))
