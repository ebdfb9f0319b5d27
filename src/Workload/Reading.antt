-- ===== src/Workload/Reading.antt =====
-- The supervisor's arguments, read back as flags and values, and the flags of a service.
use mathlib.Core.List.{append-nil, append_assoc}
use habitat_operator.Base.{
  String, ◌<>◌, ◌==◌, eq_iff, All, All-append, Among, inl, inr, Option, none, some, List, [], ◌∷◌,
  ◌++◌, map, ◌≡◌, refl, sym, ◌∙◌, ap, arith, if◌then◌else◌, false,
}
use habitat_operator.Types.{Service, Bind, elements}
use habitat_operator.Workload.Args.{
  optional_flag, effective_topology, peer_path, bind_arg, bind_flags, hab_args,
}
use habitat_operator.Workload.Names.{the}

-- How a command line is read: a flag, and its value.
abbrev pub read_flags : List String → Option (List (String × String))
read_flags [] = some []
read_flags (flag ∷ []) = none
read_flags (flag ∷ value ∷ rest) = elim (read_flags rest) [
  | none ↦ none
  | some fs ↦ some ((flag, value) ∷ fs)
]

-- The values that a flag is given, in order.
abbrev pub values : String → List (String × String) → List String
values flag [] = []
values flag ((f, v) ∷ fs) = if f == flag then v ∷ values flag fs else values flag fs

abbrev pub write_flags : List (String × String) → List String
write_flags [] = []
write_flags ((f, v) ∷ fs) = f ∷ v ∷ write_flags fs

pub read-write : (fs : List (String × String)) → read_flags (write_flags fs) ≡ some fs
read-write [] = refl
read-write ((f, v) ∷ fs) = rw (read-write fs)

write-append :
    (fs gs : List (String × String)) → write_flags (fs ++ gs) ≡ write_flags fs ++ write_flags gs
write-append [] gs = refl
write-append ((f, v) ∷ fs) gs = ap (λ l. f ∷ v ∷ l) (write-append fs gs)

values-append :
    (flag : String) (fs gs : List (String × String))
    → values flag (fs ++ gs) ≡ values flag fs ++ values flag gs
values-append flag [] gs = refl
values-append flag ((f, v) ∷ fs) gs = ground (arith, values-append flag fs gs)

abbrev pub optional : String → Option String → List (String × String)
optional flag none = []
optional flag (some v) = (flag, v) ∷ []

abbrev bind_pairs : List Bind → List (String × String)
bind_pairs [] = []
bind_pairs (b ∷ bs) = ("--bind", bind_arg b) ∷ bind_pairs bs

-- The flags of a service, and of its ring.
abbrev pub flags : Service → Option String → List (String × String)
flags s ring =
    optional "--group" s.group
    ++ (optional "--channel" s.channel
        ++ (("--topology", effective_topology s.topology)
            ∷ ("--peer-watch-file", peer_path)
            ∷ (bind_pairs (elements s.bind) ++ optional "--ring" ring)))

bind_flags-eq :
    (bs : List Bind) (args : List String) → bind_flags bs args ≡ args ++ write_flags (bind_pairs bs)
unfolding bind_flags
bind_flags-eq [] args = sym (append-nil args)
bind_flags-eq (b ∷ bs) args = bind_flags-eq bs _ ∙ append_assoc args ("--bind" ∷ bind_arg b ∷ []) _

optional_flag-eq :
    (flag : String) (o : Option String) (args : List String)
    → optional_flag flag o args ≡ args ++ write_flags (optional flag o)
optional_flag-eq flag none args = sym (append-nil args)
optional_flag-eq flag (some v) args = refl

pub hab_args-eq :
    (s : Service) (ring : Option String)
    → hab_args s ++ write_flags (optional "--ring" ring) ≡ write_flags (flags s ring)
unfolding hab_args
hab_args-eq s ring = simp (bind_flags-eq, optional_flag-eq, write-append, append_assoc)

values-optional : (flag : String) (o : Option String) → values flag (optional flag o) ≡ the o
values-optional flag none = refl
values-optional flag (some v) = ground (arith, eq_iff flag flag)

values_other :
    (flag f : String) (o : Option String) → (f == flag) ≡ false → values flag (optional f o) ≡ []
values_other flag f none e = refl
values_other flag f (some v) e = rw e

-- How the supervisor reads a bind: its name, a colon, and the service and the group with a dot.
abbrev pub bind_text : Bind → String
bind_text b = b.name <> (":" <> (b.service <> ("." <> b.group)))

values_binds : (bs : List Bind) → values "--bind" (bind_pairs bs) ≡ map bind_text bs
values_binds [] = refl
values_binds (b ∷ bs) = ap (◌∷◌ (bind_text b)) (values_binds bs)

values_no_binds :
    (flag : String) (bs : List Bind) → ("--bind" == flag) ≡ false → values flag (bind_pairs bs) ≡ []
values_no_binds flag [] e = refl
values_no_binds flag (b ∷ bs) e = rw e (values_no_binds flag bs e)

-- The flags of the supervisor that are used.
abbrev pub IsFlag : String → Type 0
IsFlag flag =
    Among flag
      ("--group" ∷ "--channel" ∷ "--topology" ∷ "--peer-watch-file" ∷ "--bind" ∷ "--ring" ∷ [])

optional-IsFlag :
    (flag : String) (o : Option String) → IsFlag flag → All (λ p. IsFlag p.0) (optional flag o)
optional-IsFlag flag none f = tt
optional-IsFlag flag (some v) f = (f, tt)

binds-IsFlag : (bs : List Bind) → All (λ p. IsFlag p.0) (bind_pairs bs)
binds-IsFlag [] = tt
binds-IsFlag (b ∷ bs) = (inr (inr (inr (inr (inl refl)))), binds-IsFlag bs)

flags-IsFlag : (s : Service) (ring : Option String) → All (λ p. IsFlag p.0) (flags s ring)
flags-IsFlag s ring =
    All-append _ (optional "--group" s.group) _ (optional-IsFlag "--group" s.group (inl refl)) (
      All-append _ (optional "--channel" s.channel) _
        (optional-IsFlag "--channel" s.channel (inr (inl refl)))
        (
          inr (inr (inl refl)),
          (
            inr (inr (inr (inl refl))),
            All-append _ (bind_pairs (elements s.bind)) _ (binds-IsFlag (elements s.bind))
                (optional-IsFlag "--ring" ring (inr (inr (inr (inr (inr (inl refl))))))),
          ),
        ))

-- What the supervisor is told: each setting of the service once, nothing for what it leaves out, and
-- nothing else.
pub record Reads (s : Service) (t : String) (ring_name : Option String)
    (fs : List (String × String)) : Type 0 where
  pub group : values "--group" fs ≡ the s.group
  pub channel : values "--channel" fs ≡ the s.channel
  pub topology : values "--topology" fs ≡ t ∷ []
  pub peers : values "--peer-watch-file" fs ≡ "/habitat-operator/peer-ip" ∷ []
  pub binds : values "--bind" fs ≡ map bind_text (elements s.bind)
  pub ring : values "--ring" fs ≡ the ring_name
  pub no_more : All (λ p. IsFlag p.0) fs

module _ (s : Service) (ring : Option String) where
  pub flags-Reads : Reads s (effective_topology s.topology) ring (flags s ring)
  flags-Reads = record {
    group = simp (
      values-append,
      values-optional,
      values_other "--group" "--channel" s.channel refl,
      values_other "--group" "--ring" ring refl,
      values_no_binds "--group" (elements s.bind) refl,
      append-nil,
    );
    channel = simp (
      values-append,
      values-optional,
      values_other "--channel" "--group" s.group refl,
      values_other "--channel" "--ring" ring refl,
      values_no_binds "--channel" (elements s.bind) refl,
      append-nil,
    );
    topology = simp (
      values-append,
      values_other "--topology" "--group" s.group refl,
      values_other "--topology" "--channel" s.channel refl,
      values_other "--topology" "--ring" ring refl,
      values_no_binds "--topology" (elements s.bind) refl,
      append-nil,
    );
    peers = simp (
      values-append,
      values_other "--peer-watch-file" "--group" s.group refl,
      values_other "--peer-watch-file" "--channel" s.channel refl,
      values_other "--peer-watch-file" "--ring" ring refl,
      values_no_binds "--peer-watch-file" (elements s.bind) refl,
      append-nil,
    );
    binds = simp (
      values-append,
      values_other "--bind" "--group" s.group refl,
      values_other "--bind" "--channel" s.channel refl,
      values_other "--bind" "--ring" ring refl,
      values_binds,
      append-nil,
    );
    ring = simp (
      values-append,
      values-optional,
      values_other "--ring" "--group" s.group refl,
      values_other "--ring" "--channel" s.channel refl,
      values_no_binds "--ring" (elements s.bind) refl,
    );
    no_more = flags-IsFlag s ring;
  }
