-- ===== src/Node/Transport/Connect/Call.antt =====
-- A call of a server-streaming method over the Connect protocol, from a promise client over the transport
-- to the handler and back.
use connect_web.Prelude.{List, Option}
use connect_web.Connect.JsonBytes.{create_end_stream_serialization}
use connect_web.Headers.{Headers}
use connect_web.ConnectError.{Reason}
use connect_web.Serialization.{Serialization}
use connect_web.Stream.{Stream, prepend, next}
use connect_web.Compression.{Negotiated}
use connect_web.MethodUrl.{create_method_url}
use connect_web.Client.{Event, header_event, messages_then_trailer}
use connect_web.Connect.ErrorJson.{JsonLibrary}
use connect_web.Connect.JsonBytes.{JsonText}
use connect_web.Connect.EndStream.{EndStreamResponse}
use connect_web.Node.Handler.{HandlerInit}
use connect_web.Node.Implementation.{Context, ImplSpec}
use connect_web.Node.ConnectHandler.Exchange.{ended_by}
use connect_web.Node.Transport.{ClientResponse, TransportOptions, Request}
use connect_web.Node.Transport.Calls.{CallMethod}
use connect_web.Node.Transport.Connect.Received.{seen, trailer_seen}

module _ {I O P PI : Type 0} (text : JsonText) (lib : JsonLibrary) (method : CallMethod I PI O)
    (opt : TransportOptions) (init : HandlerInit) (spec : ImplSpec I O P)
    (compression : Negotiated) where
  abbrev ends : Serialization EndStreamResponse
  ends = create_end_stream_serialization text lib

  -- what the client is to hand out
  abbrev pub handed_out : ClientResponse → Context → List O → Option Reason → Stream (Event O)
  handed_out res after ms failure = next (header_event res.header) (
      messages_then_trailer (trailer_seen after.response_trailer failure)
        (prepend ms (ended_by (seen lib after.response_trailer failure))))

  abbrev request : Headers → Stream I → Request (Stream I)
  request header input = record {
    url = create_method_url opt.base_url method.service method.name;
    header = header;
    message = input;
  }
