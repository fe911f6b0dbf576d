-- ===== src/Comm/Transport/Ending.antt =====
-- That the loop of `ProcessMessagesFromStream` comes to an end on every stream that does.
use sprinter_signing.Base.{
  ℕ, zero, suc, ◌<◌, ◌≡◌, refl, ap, ◌∙◌, ◌++◌, Option, none, some, List, [], ◌∷◌, arith, Result, ok,
  err, length,
}
use sprinter_signing.Base.Text.{Text}
use sprinter_signing.Peers.{PeerId}
use sprinter_signing.Comm.Subscriptions.{Subscribers, Range}
use sprinter_signing.Comm.Transport.Frames.{ReadError, read_string, read_stream, frame}
use sprinter_signing.Comm.Transport.Receive.{
  WireMessage, Delivery, deliver, or_nothing, on_message, on_read, process_messages_fuel,
  process_messages_from_stream,
}

-- What is read takes at least one byte off the stream.
abbrev IsShorter : Text → Result ReadError (Text × Text) → Type 0
IsShorter t (err e) = Unit {0}
IsShorter t (ok (line, behind)) = length behind < length t

read_string-IsShorter : (t : Text) → IsShorter t (read_string t)
unfolding read_string
read_string-IsShorter [] = tt
read_string-IsShorter (c ∷ cs) = ground (arith, read_string-IsShorter cs)

frame-IsShorter :
    (t : Text) (r : Result ReadError (Text × Text)) → IsShorter t r → IsShorter t (frame r)
unfolding frame
frame-IsShorter t (err e) h = tt
frame-IsShorter t (ok ([], behind)) h = tt
frame-IsShorter t (ok (c ∷ line, behind)) h = h

read_stream-IsShorter : (t : Text) → IsShorter t (read_stream t)
unfolding read_stream
read_stream-IsShorter t = frame-IsShorter t (read_string t) (read_string-IsShorter t)

module _ (range : Range) (unmarshal : Text → Option WireMessage) (subs : Subscribers)
    (remote : PeerId) where
  -- The loop has ended, with these deliveries.
  abbrev Ends : Option (List Delivery) → Type 0
  Ends result = (ds : List Delivery) × (result ≡ some ds)

  on_message-Ends :
      (m : Option WireMessage) (later : Option (List Delivery))
      → Ends later
      → Ends (on_message range unmarshal subs remote m later)
  unfolding on_message
  on_message-Ends none later h = ([], refl)
  on_message-Ends (some w) none h = absurd (ground (arith, h.1))
  on_message-Ends (some w) (some later) h = (deliver range subs remote w ++ later, refl)

  on_read-Ends :
      (t : Text) (r : Result ReadError (Text × Text)) (continue : Text → Option (List Delivery))
      → IsShorter t r
      → ((rest : Text) → length rest < length t → Ends (continue rest))
      → Ends (on_read range unmarshal subs remote r continue)
  unfolding on_read
  on_read-Ends t (err e) continue h ends = ([], refl)
  on_read-Ends t (ok (msg, rest)) continue h ends =
      on_message-Ends (unmarshal msg) (continue rest) (ends rest h)

  process_messages_fuel-Ends :
      (fuel : ℕ) (t : Text)
      → length t < fuel
      → Ends (process_messages_fuel range unmarshal subs remote fuel t)
  unfolding process_messages_fuel
  process_messages_fuel-Ends zero t h = absurd (omega (arith, h))
  process_messages_fuel-Ends (suc fuel) t h =
      on_read-Ends t (read_stream t) (process_messages_fuel range unmarshal subs remote fuel)
        (read_stream-IsShorter t)
        (λ rest s. process_messages_fuel-Ends fuel rest (omega (arith, h, s)))

  on_read_same :
      (t : Text) (r : Result ReadError (Text × Text)) (f g : Text → Option (List Delivery))
      → IsShorter t r
      → ((rest : Text) → length rest < length t → f rest ≡ g rest)
      → on_read range unmarshal subs remote r f ≡ on_read range unmarshal subs remote r g
  unfolding on_read
  on_read_same t (err e) f g h same = refl
  on_read_same t (ok (msg, rest)) f g h same =
      ap (on_message range unmarshal subs remote (unmarshal msg)) (same rest h)

  fuel_enough :
      (fuel fuel' : ℕ) (t : Text)
      → length t < fuel
      → length t < fuel'
      → process_messages_fuel range unmarshal subs remote fuel t
        ≡ process_messages_fuel range unmarshal subs remote fuel' t
  unfolding process_messages_fuel
  fuel_enough zero fuel' t h h' = absurd (omega (arith, h))
  fuel_enough (suc fuel) zero t h h' = absurd (omega (arith, h'))
  fuel_enough (suc fuel) (suc fuel') t h h' =
      on_read_same t (read_stream t) (process_messages_fuel range unmarshal subs remote fuel)
        (process_messages_fuel range unmarshal subs remote fuel') (read_stream-IsShorter t)
        (λ rest s. fuel_enough fuel fuel' rest (omega (arith, h, s)) (omega (arith, h', s)))

  some-or_nothing :
      (result : Option (List Delivery))
      → Ends result
      → result ≡ some (or_nothing range unmarshal subs remote result)
  some-or_nothing none h = absurd (ground (arith, h.1))
  some-or_nothing (some ds) h = refl

  -- On every stream the loop ends by itself, within any number of rounds that is larger than the number of
  -- the stream's bytes, and always with the same deliveries.
  pub process_messages_from_stream-ends :
      (fuel : ℕ) (stream : Text)
      → length stream < fuel
      → process_messages_fuel range unmarshal subs remote fuel stream
        ≡ some (process_messages_from_stream range unmarshal subs remote stream)
  unfolding process_messages_from_stream
  process_messages_from_stream-ends fuel stream h =
      fuel_enough fuel (suc (length stream)) stream h (omega arith)
      ∙ some-or_nothing
          (process_messages_fuel range unmarshal subs remote (suc (length stream)) stream)
          (process_messages_fuel-Ends (suc (length stream)) stream (omega arith))
