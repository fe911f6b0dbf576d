-- ===== src/Config/Ports.antt =====
-- config/relayer/config.go: the ports, which `NewRelayerConfig` and `parseMpcConfig` read in the same way.
use sprinter_signing.Base.{
  ℕ, ◌≡◌, not, ◌||◌, some, arith, Result, ok, err, ◌>>=◌, ◌>>◌, guard, or_fail, ltb, if◌then◌else◌,
}
use sprinter_signing.Base.Int.{pos, negsuc, is_lt_ℕ, is_gt_ℕ, magnitude}
use sprinter_signing.Base.Text.{Text}
use sprinter_signing.Comm.Transport.Gate.{Codec, parse_int_bits}

pub data ConfigError : Type 0 where
  unparsed_port port_out_of_range : ConfigError

-- `strconv.ParseInt(port, 0, 16)` and the check of its range.
unfoldable pub parse_port : Codec → Text → Result ConfigError ℕ
unfolding parse_int_bits
parse_port codec s = do
  port ← or_fail (parse_int_bits codec 16 s) unparsed_port
  guard (not (is_lt_ℕ port 0 || is_gt_ℕ port 65535)) port_out_of_range
  ok (magnitude port)

-- A text is read as a port exactly if it writes a number from 0 to 32767: the signed 16-bit range is
-- checked first, so the ports above are refused as unreadable, and only negative ones as out of range.
pub parse_port_lem :
    (codec : Codec) (s : Text) (n : ℕ)
    → (codec.parse_int s ≡ some (pos n)
        → parse_port codec s ≡ (if ltb n 32768 then ok n else err unparsed_port))
      × (codec.parse_int s ≡ some (negsuc n)
          → parse_port codec s ≡ (if ltb n 32768 then err port_out_of_range else err unparsed_port))
unfolding parse_port parse_int_bits
parse_port_lem codec s n = (λ h. ground (arith, h), λ h. ground (arith, h))
