-- ===== src/Emulation/Elf/Table.antt =====
-- `knownELFPlatforms` of emulation/elf.go; machines are the numbers of Go's debug/elf.
use buildfarm.Base.{ℕ, List, [], ◌∷◌, Bool, true, false, codes, String}
use buildfarm.Emulation.Elf.{
  ElfPlatform, osabi_none, osabi_linux, class32, class64, data2lsb, data2msb,
}

abbrev linux_binary : String → ℕ → ℕ → Bool → ℕ → List ℕ → ElfPlatform
linux_binary name class encoding also_none machine flags = record {
  platform = codes name;
  osabi = osabi_none ∷ osabi_linux ∷ [];
  class = class;
  encoding = encoding;
  also_none = also_none;
  machine = machine;
  flags = flags;
}

abbrev pub known_elf_platforms : List ElfPlatform
known_elf_platforms =
    linux_binary "linux/386" class32 data2lsb true 3 []
    ∷ linux_binary "linux/amd64" class64 data2lsb true 62 []
    ∷ linux_binary "linux/arm" class32 data2lsb false 40 []
    ∷ linux_binary "linux/arm64" class64 data2lsb false 183 []
    ∷ linux_binary "linux/arm64be" class64 data2msb false 183 []
    ∷ linux_binary "linux/loong64" class64 data2lsb false 258 []
    ∷ linux_binary "linux/mips" class32 data2msb false 8 (0 ∷ 2 ∷ [])
    ∷ linux_binary "linux/mipsle" class32 data2lsb false 10 (0 ∷ 2 ∷ [])
    ∷ linux_binary "linux/mips64" class64 data2msb false 8 (0 ∷ 2 ∷ [])
    ∷ linux_binary "linux/mips64le" class64 data2lsb false 10 (0 ∷ 2 ∷ [])
    ∷ linux_binary "linux/ppc" class32 data2msb false 20 []
    ∷ linux_binary "linux/ppc64" class64 data2msb false 21 []
    ∷ linux_binary "linux/ppc64le" class64 data2lsb false 21 []
    ∷ linux_binary "linux/riscv32" class32 data2lsb false 243 []
    ∷ linux_binary "linux/riscv64" class64 data2lsb false 243 []
    ∷ linux_binary "linux/s390x" class64 data2msb false 22 []
    ∷ []
