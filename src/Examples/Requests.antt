-- ===== src/Examples/Requests.antt =====
-- Messages for the router's own handlers: the theorems at concrete inputs.
use rtmessage.Prelude.{
  ℕ, ◌≡◌, refl, true, false, none, some, List, [], ◌∷◌, ◌++◌, replicate, arith, codes, ◌==◌,
  if◌then◌else◌,
}
use rtmessage.Error.{rt_ok, ebadf}
use rtmessage.Header.{Header, init, c_string, copy_into}
use rtmessage.Routing.Tokens.{
  tokenize, split_expression, work_bytes, tokenize_loop, take_token, skip_dot,
}
use rtmessage.Routing.Forest.{same_name, find_topic, matches, first_char, is_instance}
use rtmessage.Routing.Tree.{get_topic_routes, routes_of, ends_with_dot, deref}
use rtmessage.Message.{RtMessage, get_item, get_int32, get_string}
use rtmessage.Message.Items.{get_array_length, get_string_item}
use rtmessage.Router.{Router, Request, complete, registered_components, subscribe}
use rtmessage.Router.Clients.{others}
use rtmessage.Router.Forward.{Answer, taken, refused}
use rtmessage.Router.Discovery.{items_key, count_key, entry_at, discover_registered_components}
use rtmessage.Router.Discovery.Components.{discover_registered_components-reads}
use rtmessage.Router.Handlers.{Handled, incoming_of}
use rtmessage.Router.Handlers.Dispatch.{dispatch_message}
use rtmessage.Router.Handlers.Failures.{dispatch_message-ebadf}
use rtmessage.Examples.Documents.{documents, documents-IsLawful, find, append, subscription}
use rtmessage.Examples.Routes.{entry_7, entry_of_5, router}

abbrev text_array : List ℕ → List ℕ
text_array text = copy_into (replicate 128 0) text

-- The header of a request for the answer topic `A.B`
abbrev asking : Header
asking = record init {
  flags = 1;
  topic = text_array (codes "_RTROUTED.INBOX.SUBSCRIBE");
  reply_topic = text_array (codes "A.B");
}

abbrev start : Handled
start = record {
  router = router;
  switches = record { verbose_logs = false; traffic_monitor = false; is_running = true };
  inbox = [];
  frames = [];
}

abbrev all_taken : ℕ → Answer
all_taken client = taken

abbrev five_closed : ℕ → Answer
five_closed client = if client == 5 then refused ebadf else taken

listed : registered_components router.routes ≡ codes "A.B" ∷ codes "C" ∷ []
unfolding registered_components
listed = refl

discover_registered_components-reads_example :
    (response : RtMessage documents) × (discover_registered_components documents true asking
        router.routes
      ≡ some response)
    × (get_int32 documents response count_key ≡ (rt_ok, some 2))
    × (get_array_length documents response items_key ≡ (rt_ok, 2))
    × (get_string_item documents response items_key 1 ≡ (rt_ok, some (codes "C")))
unfolding init
discover_registered_components-reads_example =
    discover_registered_components-reads documents documents-IsLawful asking router.routes
      (codes "A.B") (codes "C" ∷ []) 1 refl listed (omega arith) (omega arith)

unread : c_string (codes "?" ++ (0 ∷ [])) ≡ some (codes "?")
unfolding c_string
unread = refl

-- A message on `A.B` from the client 6, whose route is `C`
abbrev published : Header
published = record init { topic = text_array (codes "A.B"); payload_length = 2 }

published_topic : c_string published.topic ≡ some (codes "A.B")
unfolding c_string init
published_topic = refl

published_reply : c_string published.reply_topic ≡ some []
unfolding c_string init
published_reply = refl

routes_of_ab : get_topic_routes router.routing_tree (codes "A.B") ≡ some (some (0 ∷ []))
unfolding get_topic_routes tokenize split_expression tokenize_loop take_token skip_dot work_bytes
    find_topic matches same_name first_char is_instance routes_of ends_with_dot
routes_of_ab = refl

at_0 : deref 0 router.routing_tree.route_list ≡ some entry_7
unfolding deref
at_0 = refl

at_7 : entry_at 7 router.routes ≡ some entry_of_5
unfolding entry_at
at_7 = refl

dispatch_message-ebadf_example :
    (h' : Handled) × (dispatch_message documents true five_closed start 6 published
        (codes "A.B")
        []
        (codes "hi")
      ≡ some h')
    × (h'.router.routes ≡ others 6 router.routes)
    × (h'.frames ≡ [])
unfolding init
dispatch_message-ebadf_example =
    dispatch_message-ebadf documents five_closed start 6 0 published (codes "A.B") [] (codes "hi")
      entry_7 entry_of_5 published_topic published_reply routes_of_ab at_0 at_7 refl refl refl refl
      refl ((omega arith, tt), (tt, tt))

-- The client 6 subscribes to `D`.
abbrev wish : Request
wish = record { add = 1; topic = codes "D"; route_id = 7 }

abbrev bytes_of_wish : List ℕ
bytes_of_wish = codes "{D" ++ (0 ∷ [])

abbrev read_wish : RtMessage documents
read_wish = record { json = some (subscription (codes "D")); count = 1 }

is_wish : incoming_of documents true all_taken read_wish ≡ complete wish
unfolding incoming_of get_int32 get_string get_item find append same_name
is_wish = refl

abbrev subscribed : Router
subscribed = elim (subscribe router 6 wish) [ none ↦ router | some (code, r) ↦ r ]
