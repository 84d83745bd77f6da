-- ===== src/Router/Handlers/Responses.antt =====
-- The response of the router to a subscription request.
use rtmessage.Prelude.{ℕ, List}
use rtmessage.Header.{Header}
use rtmessage.Json.{CJson}
use rtmessage.Router.{Router}
use rtmessage.Router.Forward.{Answer}
use rtmessage.Router.Discovery.{result_key}

module _ (c : CJson) (answers : ℕ → Answer) where
  -- The text of a response with a result code alone
  abbrev pub result_text : ℕ → List ℕ
  result_text rc = c.print (c.add_item_to_object c.create_object result_key (c.create_number rc))
