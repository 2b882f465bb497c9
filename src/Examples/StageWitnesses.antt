-- ===== src/Examples/StageWitnesses.antt =====
-- The way from shares of a key to the custody bit, at two parties over the field of three elements.
use proof_of_custody.Prelude.{ℕ, ◌+◌, ◌*◌}
use proof_of_custody.Ring.{nat}
use proof_of_custody.Engine.Program.{clear_ring}
use proof_of_custody.Bitwise.{value}
use proof_of_custody.Poc.KeyExchange.{piece}
use proof_of_custody.Poc.EphemKey.Laws.{point_bits}
use proof_of_custody.Examples.Field3.{F3, res2}
use proof_of_custody.Examples.TwoParties.{two_parties}
use proof_of_custody.Examples.SmallCurve.{small_curve}
use proof_of_custody.Examples.SignWitnesses.{coordinates}

-- Octets that two players draw.
abbrev drawn : ℕ → ℕ → ℕ
drawn player place = 17 * player + 5 * place + 3

abbrev small_key : ℕ → F3
small_key i = nat (value (piece i (point_bits two_parties (coordinates res2))))
