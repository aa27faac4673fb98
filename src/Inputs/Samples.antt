-- ===== src/Inputs/Samples.antt =====
-- The theorems on the inputs at one name and one address.
use midori_vpn_core.Net.{codes}
use midori_vpn_core.Inputs.{sanitize_device_name}
use midori_vpn_core.Inputs.Names.{IsSafe, sanitize_device_name-IsSafe}

sanitize_device_name-IsSafe_example : IsSafe (sanitize_device_name (codes "my phone\n"))
sanitize_device_name-IsSafe_example = sanitize_device_name-IsSafe (codes "my phone\n")
