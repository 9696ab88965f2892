-- ===== src/Command/Flags/Given.antt =====
-- The flags that `buildCmd` of cmd/buildfarm/build.go needs.
use buildfarm.Base.Result.{Result}
use buildfarm.Command.Flags.{Flags}
