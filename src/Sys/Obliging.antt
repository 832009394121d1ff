-- ===== src/Sys/Obliging.antt =====
-- A kernel that grants every call, for examples.
use virturust.Base.{true, [], some}
use virturust.Sys.{Kernel}

abbrev pub obliging_kernel : Kernel
obliging_kernel = record {
  succeeds = λ h c. true;
  contents = λ h c. some [];
  number = λ h c. 7;
  entries = λ h p. [];
}
