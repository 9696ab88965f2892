-- ===== src/Lib.antt =====
-- buildfarm builds container images on several machines at once and puts the results together into
-- one manifest list.
--
-- The program's parts. A `Farm` (buildfarm.go) holds named builders; each is an `ImageBuilder`
-- (types.go) that says which platforms it builds for, builds, and hands over images. `Schedule`
-- gives each platform that is wanted a builder, `Build` runs the builds in parallel and hands the
-- reports to a `ListBuilder`, which fetches the images. emulation/ finds out which platforms the
-- kernel can emulate: it reads the entries under /proc/sys/fs/binfmt_misc and tries their magic
-- numbers on the ELF headers that programs of each known platform would have.
--
-- Which file models which part.
--   Base        Boolean tests, strings as lists of bytes, lists, Go maps as association lists, `sort`,
--               errors and results.
--   Types       types.go. A call on an engine takes the world of engines and files and returns it.
--   Farm        buildfarm.go: `NativePlatforms`, `EmulatedPlatforms`, `Schedule`; Farm/Build has
--               `Build`, Farm/Members has `forEach`, `PruneImages`, `Done` and `Status`, Farm/Open
--               has `newFarmWithBuilders`, `NewDefaultFarm`, `NewFarm` and `NewAdHocFarm`; Farm/Delivery
--               composes `Build` with the list builders of local.go and files.go.
--   Builder     Podman is podman.go and copy.go; Local is the builder of local.go, which
--               Local/Builder makes an `ImageBuilder` that a farm can ask, and LocalList its list
--               builder; Remote is the builder of remote.go, with sessions that `Done` ends in
--               Remote/Session; Docker is the builder of docker.go; FileList is the list builder of
--               files.go; Engine has what they take from podman. Requests has the operations of an
--               `ImageBuilder` as data, and Contract an abstract machine that knows the platforms of a
--               builder and nothing else, which the local and the remote builder refine.
--   Command     cmd/buildfarm: main.go and store_supported.go, with a module for each of the commands
--               status, prune, platforms and build; `buildCmd` composes `getFarm`,
--               `Schedule` and `Build`; Flags has the flags of main.go, build.go and prune.go.
--   Emulation   emulation/: Magic is `magicMatch`, Binfmt is `parseBinfmtMisc`, Registry is
--               `registeredBinfmtMisc` and `Registered`; Elf is emulation/elf.go, its table in
--               Elf/Table. GoText has the functions of Go's strings, bufio, strconv and hex packages
--               that the parser calls.
--
-- How the code corresponds. A Go map is an association list and `range` goes over it in the order of
-- the list; the statements hold for every list, so for every order. Two loops over one map take two
-- lists. A group of goroutines runs as a sequence in the order of the list: the goroutines that fill
-- the maps do so under a lock, and the builders answer through the world that they share. Farm/Build/Group
-- has the goroutines of `Build` as a step relation, in which each calls its builder and writes in two
-- turns, and others may have theirs between the two. A `(T, error)` is a result, and a nil
-- pointer that the code would follow is a panic. What a command prints on its standard output is a
-- text that it returns. What `sync.Once` guards is a cache that each call
-- takes and returns. The text of an error has those arguments of its format that are texts. Texts are
-- lists of bytes; white space is that of ASCII. `bufio.Scanner` gives up at a line of 65536 bytes, as
-- it does in Go. No definition takes fuel: every loop goes down a list.
--
-- What is a parameter: podman's engine and bindings, the client of docker, `units.RAMInBytes`,
-- containers/image and libimage's runtime, the builders that a farm asks, `libimage.NormalizePlatform`,
-- the error that go-multierror makes of a list, the pipes, the configuration, what `filepath.WalkDir`
-- visits with the contents and the errors of the files, `filepath.Abs`, what pflag leaves in the
-- variables of the flags, and the text of an error. `Build` takes the list builder that it calls as a
-- parameter, too, which Farm/Delivery fills.
--
-- What is not modelled: logging and other messages to standard error, contexts, that `Build` does not
-- wait for the relays of its output, the flags --debug and --isolation, what cobra does
-- between the functions of a command, and the files for systems other than Linux.
pub mod Base
pub mod Emulation
pub mod Types
pub mod Farm
pub mod Builder
pub mod Command
