-- ===== src/Mock/Received.antt =====
-- What a client has of the items that the mock sends (bin/extproc_mock.rs), and what they offer.
use ngx_inference.Prelude.{
  ◌-◌, ◌<◌, ◌≡◌, refl, ap, Bool, true, false, List, [], ◌∷◌, ◌++◌, some, arith,
}
use mathlib.Core.List.{append_assoc, append-nil}
use ngx_inference.Text.{Bytes, bytes, is_empty, lower, eq_ignore_ascii_case}
use ngx_inference.Grpc.Proto.{ProcessingResponse}
use ngx_inference.Grpc.Mutation.{all_offered, set_headers_of, first}
use ngx_inference.Grpc.Channel.{Ending, closed, failed}
use ngx_inference.Grpc.Stream.{stream_offers}
use ngx_inference.Mock.{
  ExtProcMock, Inbound, request_headers, request_body, other, failure, Item, reply, status, Task,
  send, headers_resp, body_resp, build_headers_response, build_body_response,
}

-- The messages that a client gets before the stream closes, or fails by a status.
abbrev pub received_messages : {Status : Type 0} → List (Item Status) → List ProcessingResponse
received_messages [] = []
received_messages (reply r ∷ items) = r ∷ received_messages items
received_messages (status s ∷ items) = []

abbrev pub received_ending : {Status : Type 0} → List (Item Status) → Ending
received_ending [] = closed
received_ending (reply r ∷ items) = received_ending items
received_ending (status s ∷ items) = failed

abbrev pub no_failure : {Status : Type 0} → List (Inbound Status) → Bool
no_failure [] = true
no_failure (failure s ∷ more) = false
no_failure (request_headers m ∷ more) = no_failure more
no_failure (request_body b ∷ more) = no_failure more
no_failure (other ∷ more) = no_failure more

-- The header of the endpoint picker, as the client looks for it.
abbrev pub upstream_key : Bytes
upstream_key = bytes "x-inference-upstream"

pub received-append :
    {Status : Type 0} (items : List (Item Status)) (r : ProcessingResponse)
    → received_ending items ≡ closed
    → (received_messages (items ++ (reply r ∷ [])) ≡ received_messages items ++ (r ∷ []))
      × (received_ending (items ++ (reply r ∷ [])) ≡ closed)
received-append [] r h = (refl, refl)
received-append (reply q ∷ items) r h =
    let (m, e) = received-append items r h in (ap (λ l. q ∷ l) m, e)
received-append (status s ∷ items) r h = cc

pub stream_offers-append :
    (key : Bytes) (ms ns : List ProcessingResponse)
    → stream_offers key (ms ++ ns) ≡ stream_offers key ms ++ stream_offers key ns
stream_offers-append key [] ns = refl
stream_offers-append key (m ∷ ms) ns = simp (stream_offers-append key ms ns, append_assoc)

pub send_taken :
    {Status : Type 0} (item : Item Status) (t : Task Status)
    → 0 < t.taken
    → send item t ≡ (record t { out = t.out ++ (item ∷ []); taken = t.taken - 1 }, true)
unfolding send
send_taken item t h = ground arith

-- A reply that is taken adds what it offers.
pub offers_added :
    {Status : Type 0} (r : ProcessingResponse) (out : List (Item Status))
    → received_ending out ≡ closed
    → stream_offers upstream_key (received_messages (out ++ (reply r ∷ [])))
      ≡ stream_offers upstream_key (received_messages out)
        ++ all_offered upstream_key (set_headers_of r)
offers_added r out clean =
    rw
      (
        (received-append out r clean).0,
        stream_offers-append upstream_key (received_messages out) (r ∷ []),
        append-nil,
      )
      refl

-- What the two replies offer.
pub headers_resp-offers :
    (mock : ExtProcMock)
    → is_empty mock.epp_upstream ≡ false
    → all_offered upstream_key (set_headers_of (headers_resp mock)) ≡ mock.epp_upstream ∷ []
unfolding build_headers_response eq_ignore_ascii_case lower
headers_resp-offers mock chosen = rw chosen refl

pub body_resp-offers :
    (mock : ExtProcMock) (model : Bytes)
    → all_offered upstream_key (set_headers_of (body_resp mock model)) ≡ []
unfolding build_body_response eq_ignore_ascii_case lower
body_resp-offers mock model = refl

pub first-append-some :
    (vs ws : List Bytes) (u : Bytes) → first vs ≡ some u → first (vs ++ ws) ≡ some u
first-append-some [] ws u h = cc
first-append-some (v ∷ vs) ws u h = h
