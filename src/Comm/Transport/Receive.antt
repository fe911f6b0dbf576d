-- ===== src/Comm/Transport/Receive.antt =====
-- Receiving: `ProcessMessagesFromStream` of comm/p2p/libp2p.go. `json.Unmarshal` is the argument
-- `unmarshal`; the stream is all the bytes that arrive on it before it ends.
use sprinter_signing.Base.{
  ℕ, zero, suc, ◌≡◌, Option, none, some, List, [], ◌∷◌, ◌++◌, map, Result, ok, err, contains, false,
  length, All, refl,
}
use sprinter_signing.Base.Text.{Text}
use sprinter_signing.Peers.{PeerId}
use sprinter_signing.Comm.Messages.{MessageType}
use sprinter_signing.Comm.Subscriptions.{Channel, Subscribers, Range, get_subscribers}
use sprinter_signing.Comm.Transport.Frames.{ReadError, read_stream, write_stream, newline}

-- The fields that a message has on the wire: `From` is not among them (`json:"-"`).
pub record WireMessage : Type 0 where
  pub message_type : MessageType
  pub session_id : Text
  pub payload : Text

pub record WrappedMessage : Type 0 where
  pub wire : WireMessage
  pub open wire use *
  pub from : PeerId

-- A message on its way to a subscriber's channel: each is sent by a goroutine of its own, so that a list of
-- them is in the order in which the goroutines are started, and they may arrive in any.
abbrev pub Delivery : Type 0
Delivery = Channel × WrappedMessage

-- One message goes to each channel that is subscribed to its session and type.
unfoldable pub deliver : Range → Subscribers → PeerId → WireMessage → List Delivery
deliver range subs remote w =
    map (λ c. (c, record { wire = w; from = remote }))
      (get_subscribers range subs w.session_id w.message_type)

-- Every message on its way is attributed to the peer at the other end of the connection.
abbrev pub IsAttributed : PeerId → List Delivery → Type 0
IsAttributed remote ds = All {A = Delivery} (λ d. d.1.from ≡ remote) ds

IsAttributed-append :
    (remote : PeerId) (xs ys : List Delivery)
    → IsAttributed remote xs
    → IsAttributed remote ys
    → IsAttributed remote (xs ++ ys)
IsAttributed-append remote [] ys hx hy = hy
IsAttributed-append remote (x ∷ xs) ys hx hy = (hx.0, IsAttributed-append remote xs ys hx.1 hy)

deliver_to-IsAttributed :
    (remote : PeerId) (w : WireMessage) (cs : List Channel)
    → IsAttributed remote (map (λ c. (c, record { wire = w; from = remote })) cs)
deliver_to-IsAttributed remote w [] = tt
deliver_to-IsAttributed remote w (c ∷ cs) = (refl, deliver_to-IsAttributed remote w cs)

module _ (range : Range) (unmarshal : Text → Option WireMessage) (subs : Subscribers)
    (remote : PeerId) where
  -- A line that does not decode ends the loop.
  unfoldable pub on_message : Option WireMessage → Option (List Delivery) → Option (List Delivery)
  on_message none later = some []
  on_message (some w) none = none
  on_message (some w) (some later) = some (deliver range subs remote w ++ later)

  unfoldable pub on_read :
      Result ReadError (Text × Text) → (Text → Option (List Delivery)) → Option (List Delivery)
  unfolding on_message
  on_read (err e) continue = some []
  on_read (ok (msg, rest)) continue = on_message (unmarshal msg) (continue rest)

  -- The loop, which ends at the first line that cannot be read or decoded, or else does not end within the
  -- rounds that it is given. Each round takes at least one byte off the stream.
  unfoldable pub process_messages_fuel : ℕ → Text → Option (List Delivery)
  unfolding on_read
  process_messages_fuel zero stream = none
  process_messages_fuel (suc fuel) stream =
      on_read (read_stream stream) (process_messages_fuel fuel)

  abbrev pub or_nothing : Option (List Delivery) → List Delivery
  or_nothing none = []
  or_nothing (some ds) = ds

  unfoldable pub process_messages_from_stream : Text → List Delivery
  unfolding process_messages_fuel
  process_messages_from_stream stream =
      or_nothing (process_messages_fuel (suc (length stream)) stream)

  on_message-IsAttributed :
      (m : Option WireMessage) (later : Option (List Delivery))
      → IsAttributed remote (or_nothing later)
      → IsAttributed remote (or_nothing (on_message m later))
  unfolding on_message deliver
  on_message-IsAttributed none later h = tt
  on_message-IsAttributed (some w) none h = tt
  on_message-IsAttributed (some w) (some later) h =
      IsAttributed-append remote (deliver range subs remote w) later
        (deliver_to-IsAttributed remote w (get_subscribers range subs w.session_id w.message_type))
        h

  on_read-IsAttributed :
      (r : Result ReadError (Text × Text)) (continue : Text → Option (List Delivery))
      → ((t : Text) → IsAttributed remote (or_nothing (continue t)))
      → IsAttributed remote (or_nothing (on_read r continue))
  unfolding on_read
  on_read-IsAttributed (err e) continue h = tt
  on_read-IsAttributed (ok (msg, rest)) continue h =
      on_message-IsAttributed (unmarshal msg) (continue rest) (h rest)

  process_messages_fuel-IsAttributed :
      (fuel : ℕ) (stream : Text)
      → IsAttributed remote (or_nothing (process_messages_fuel fuel stream))
  unfolding process_messages_fuel
  process_messages_fuel-IsAttributed zero stream = tt
  process_messages_fuel-IsAttributed (suc fuel) stream =
      on_read-IsAttributed (read_stream stream) (process_messages_fuel fuel)
        (process_messages_fuel-IsAttributed fuel)

  -- Whatever bytes arrive on a connection, each message that reaches a subscriber names the peer at
  -- the other end of it as its sender.
  pub process_messages_from_stream-IsAttributed :
      (stream : Text) → IsAttributed remote (process_messages_from_stream stream)
  unfolding process_messages_from_stream
  process_messages_from_stream-IsAttributed stream =
      process_messages_fuel-IsAttributed (suc (length stream)) stream

  -- What arrives when a peer writes the messages one after the other.
  abbrev pub written : (WireMessage → Text) → List WireMessage → Text
  written marshal [] = []
  written marshal (w ∷ ws) = write_stream (marshal w) ++ written marshal ws

  abbrev pub deliveries : List WireMessage → List Delivery
  deliveries [] = []
  deliveries (w ∷ ws) = deliver range subs remote w ++ deliveries ws

  -- Decoding gives back what was encoded, and the encoding holds no newline.
  abbrev pub Encodes : (WireMessage → Text) → WireMessage → Type 0
  Encodes marshal w = (unmarshal (marshal w) ≡ some w) × (contains (marshal w) newline ≡ false)
