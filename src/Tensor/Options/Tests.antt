-- ===== src/Tensor/Options/Tests.antt =====
-- Options without a device, and a tensor assigned to itself.
use scicompute.Base.{◌≡◌, refl, true, false, none, some}
use scicompute.Core.Types.{strided}
use scicompute.Tensor.Samples.{shape, tensor}
use scicompute.Tensor.Data.Memory.{cpu_ops}
use scicompute.Tensor.Data.{moved_from}
use scicompute.Tensor.Options.{default_options, set_layout, create_with, copy_assign, move_assign}

no_device : create_with (λ d. cpu_ops 8192) shape (set_layout strided default_options) ≡ none
unfolding create_with set_layout default_options
no_device = refl

itself : copy_assign (λ d. cpu_ops 8192) true tensor tensor ≡ some tensor
unfolding copy_assign
itself = refl

emptied : (move_assign false tensor tensor).1 ≡ moved_from tensor
unfolding move_assign
emptied = refl
