-- ===== src/Builder/Local/Builder.antt =====
-- The local builder as an `ImageBuilder`, whose world has the cache and the machine.
use buildfarm.Base.{List, Option, none, Bytes, codes}
use buildfarm.Types.{
  BuildOptions, PullToFileOptions, PullToLocalOptions, RemoveImageOptions, PruneImageOptions,
  ImageBuilder, Call,
}
use buildfarm.Farm.Open.{local_image_builder_name}
use buildfarm.Builder.Engine.{Engine, Machine}
use buildfarm.Builder.Local.{
  Fetched, Cached, local_info, local_native_platforms, local_emulated_platforms, local_status,
  local_build, local_pull_to_file, local_pull_to_local, local_remove_image, local_prune_images,
}
use buildfarm.Builder.Local.Cache.{IsCache, cached-IsCache, local_build-IsCache}

-- The world of the local builder.
abbrev pub LocalWorld : Type 0 → Type 0
LocalWorld W = Option Fetched × W

-- A call that asks for the platforms.
abbrev pub cached : {W A : Type 0} → Cached W A → Call (LocalWorld W) A
cached f (c, w) = let (a, c1, w1) = f c w in (a, (c1, w1))

-- A call that does not look at the cache.
abbrev pub uncached : {W A : Type 0} → Call W A → Call (LocalWorld W) A
uncached f (c, w) = let (a, w1) = f w in (a, (c, w1))

-- `podmanLocal`, with its methods.
unfoldable pub local_builder : {W : Type 0} → Machine W → Engine W → ImageBuilder (LocalWorld W)
local_builder m engine = record {
  driver = codes "local";
  name = local_image_builder_name;
  status = cached (local_status m engine);
  info = cached (local_info m);
  native_platforms = cached (local_native_platforms m);
  emulated_platforms = cached (local_emulated_platforms m);
  build = λ reference files options. cached (local_build m engine files options);
  pull_to_file = λ o. uncached (local_pull_to_file m engine o);
  pull_to_local = λ o. uncached (local_pull_to_local m engine o);
  remove_image = λ o. uncached (local_remove_image m engine o);
  prune_images = λ o. uncached (local_prune_images m engine o);
  done = λ x. (none, x);
}

module _ {W : Type 0} (m : Machine W) where
  -- A call leaves a well-formed cache behind where it finds one.
  abbrev pub Keeps : {A : Type 0} → Call (LocalWorld W) A → Type 0
  Keeps f = (x : LocalWorld W) → IsCache m x.0 → IsCache m (f x).1.0

  -- Every operation of a builder does.
  pub record KeepsCache (b : ImageBuilder (LocalWorld W)) : Type 0 where
    pub status : Keeps b.status
    pub info : Keeps b.info
    pub native_platforms : Keeps b.native_platforms
    pub emulated_platforms : Keeps b.emulated_platforms
    pub build :
        (reference : Bytes) (files : List Bytes) (options : BuildOptions)
        → Keeps (b.build reference files options)
    pub pull_to_file : (o : PullToFileOptions) → Keeps (b.pull_to_file o)
    pub pull_to_local : (o : PullToLocalOptions) → Keeps (b.pull_to_local o)
    pub remove_image : (o : RemoveImageOptions) → Keeps (b.remove_image o)
    pub prune_images : (o : PruneImageOptions) → Keeps (b.prune_images o)
    pub done : Keeps b.done

  -- Every operation of the local builder keeps its cache well formed: it stays empty, or holds an
  -- error, or one native platform that is the name of the platform fetched.
  pub local_builder-KeepsCache : (engine : Engine W) → KeepsCache (local_builder m engine)
  unfolding local_builder
  local_builder-KeepsCache engine = record {
    status = λ (c, w) h. (cached-IsCache m engine c w h).3;
    info = λ (c, w) h. (cached-IsCache m engine c w h).0;
    native_platforms = λ (c, w) h. (cached-IsCache m engine c w h).1;
    emulated_platforms = λ (c, w) h. (cached-IsCache m engine c w h).2;
    build = λ reference files options (c, w) h. local_build-IsCache m engine files options c w h;
    pull_to_file = λ o x h. h;
    pull_to_local = λ o x h. h;
    remove_image = λ o x h. h;
    prune_images = λ o x h. h;
    done = λ x h. h;
  }
