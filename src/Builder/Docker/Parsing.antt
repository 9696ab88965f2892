-- ===== src/Builder/Docker/Parsing.antt =====
-- The labels and the limits of `Build` of docker.go.
use buildfarm.Base.{List, [], ◌∷◌, Option, none, some, if◌then◌else◌, Bytes, codes, elem}
use buildfarm.Base.Int.{pos}
use buildfarm.Base.Map.{Map, insert}
use buildfarm.Base.Result.{errorf, wrapf, Result, ok, err, ◌>>=◌, map_err}
use buildfarm.Builder.Local.{split_n}
use buildfarm.Builder.Docker.Numbers.{parse_int64}
use buildfarm.Builder.Docker.{ULimit, Docker}

-- The switch on the number of parts of a label.
abbrev pub put_label : Bytes → List Bytes → Map Bytes → Result (Map Bytes)
put_label label (k ∷ v ∷ []) m = ok (insert k v m)
put_label label (k ∷ []) m = ok (insert k [] m)
put_label label _ m = err (errorf "parsing requested label %q" (label ∷ []))

-- The loop over the labels.
unfoldable pub put_labels : List Bytes → Map Bytes → Result (Map Bytes)
put_labels [] m = ok m
put_labels (label ∷ ls) m = put_label label (split_n b'=' 1 [] label) m >>= put_labels ls

abbrev pub build_args : Option (Map Bytes) → List (Bytes × Bytes)
build_args none = []
build_args (some m) = m

-- The limits that are sizes, and those that are numbers.
abbrev pub size_limits : List Bytes
size_limits =
    codes "core" ∷ codes "fsize" ∷ codes "memlock" ∷ codes "data" ∷ codes "rss" ∷ codes "stack" ∷ []

abbrev pub number_limits : List Bytes
number_limits =
    codes "cpu"
    ∷ codes "locks"
    ∷ codes "msgqueue"
    ∷ codes "nice"
    ∷ codes "nofile"
    ∷ codes "nproc"
    ∷ codes "rtprio"
    ∷ codes "rttime"
    ∷ codes "sigpending"
    ∷ []

module _ {W : Type 0} (d : Docker W) where
  abbrev pub size_limit : Bytes → Bytes → Bytes → Result ULimit
  size_limit name soft hard =
      map_err (wrapf "parsing requested soft %q limit %q: %w" (name ∷ soft ∷ []))
        (d.ram_in_bytes soft)
      >>= λ s.
          map_err (wrapf "parsing requested hard %q limit %q: %w" (name ∷ hard ∷ []))
            (d.ram_in_bytes hard)
          >>= λ h. ok (record { name = name; soft = s; hard = h })

  abbrev pub number_limit : Bytes → Bytes → Bytes → Result ULimit
  number_limit name soft hard =
      map_err (wrapf "parsing soft %q limit: %w" (name ∷ [])) (parse_int64 soft) >>= λ s.
      map_err (wrapf "parsing hard %q limit: %w" (name ∷ [])) (parse_int64 hard) >>= λ h.
      ok (record { name = name; soft = s; hard = h })

  -- The switch on the name; a limit of another name is left at 0.
  unfoldable pub limit_of : Bytes → Bytes → Bytes → Result ULimit
  unfolding parse_int64
  limit_of name soft hard =
      if elem name size_limits
      then size_limit name soft hard
      else if elem name number_limits
      then number_limit name soft hard
      else ok (record { name = name; soft = pos 0; hard = pos 0 })

  -- `softString` and `hardString`
  abbrev pub limit_values : Bytes → List Bytes → Result ULimit
  limit_values name (soft ∷ hard ∷ _) = limit_of name soft hard
  limit_values name (soft ∷ []) = limit_of name soft soft
  limit_values name [] = limit_of name [] []

  abbrev pub limit_parts : Bytes → List Bytes → Result ULimit
  limit_parts ulimit (name ∷ value ∷ []) = limit_values name (split_n b':' 1 [] value)
  limit_parts ulimit _ =
      err (errorf "parsing ulimit %q: expected \"limit=soft[:hard]\"" (ulimit ∷ []))

  -- The loop over the limits.
  unfoldable pub parse_ulimits : List Bytes → Result (List ULimit)
  unfolding limit_of
  parse_ulimits [] = ok []
  parse_ulimits (u ∷ us) =
      limit_parts u (split_n b'=' 1 [] u) >>= λ l. parse_ulimits us >>= λ ls. ok (l ∷ ls)
