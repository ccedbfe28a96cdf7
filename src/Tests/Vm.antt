-- ===== src/Tests/Vm.antt =====
-- The theorems about the channel and the launch of a VM, at concrete inputs.
use faasten.Base.{
  ℕ, zero, suc, ◌<◌, ◌^◌, ◌%◌, ◌≡◌, refl, true, false, none, some, [], ◌∷◌, length, arith,
}
use faasten.Wire.{Bytes, first_of}
use faasten.Vm.Channel.{ok, send, wait, wait_bytes}
use faasten.Vm.Frames.{rest_of, wait-send, send-cut}
use faasten.Vm.Config.{FunctionConfig, config_of, launch_args}
use faasten.Vm.Options.{understood, understood-launch_args}
use faasten.Tests.Sched.{thumbnail}
use faasten.Tests.Service.{byte_codec, fresh_stream}

wait-send_example :
    wait {A = Bytes}
      (record fresh_stream { incoming = (send (7 ∷ 8 ∷ []) fresh_stream).1.outgoing })
    ≡ (ok (7 ∷ 8 ∷ []), record fresh_stream { incoming = [] })
wait-send_example = wait-send (7 ∷ 8 ∷ []) fresh_stream fresh_stream refl refl (omega arith)

-- So many zeros.
zeros : ℕ → Bytes
zeros zero = []
zeros (suc n) = 0 ∷ zeros n

length-zeros : (n : ℕ) → length (zeros n) ≡ n
unfolding zeros
length-zeros zero = refl
length-zeros (suc n) = omega (arith, length-zeros n)

abbrev large : Bytes
large = zeros 4294967299

send-cut_example :
    (wait_bytes (record fresh_stream { incoming = (send large fresh_stream).1.outgoing }) ≡ (
      some (first_of (length large % 2 ^ 32) large),
      record fresh_stream { incoming = rest_of (length large % 2 ^ 32) large },
    ))
    × (length (first_of (length large % 2 ^ 32) large) < length large)
send-cut_example =
    send-cut large fresh_stream fresh_stream refl refl (omega (arith, length-zeros 4294967299))

understood-launch_args_example : understood (launch_args 1 100 (config_of thumbnail) none) ≡ true
understood-launch_args_example = understood-launch_args 1 100 (config_of thumbnail) none

-- A snapshot with its difference copied, as is the default.
abbrev from_snapshot : FunctionConfig
from_snapshot = record (config_of thumbnail) { load_dir = some "/snapshots/thumbnail" }

snapshot_refused : understood (launch_args 1 100 from_snapshot none) ≡ false
snapshot_refused = understood-launch_args 1 100 from_snapshot none
