-- ===== src/Watcher/Queue.antt =====
-- watcher/folder_watcher.py: `enqueue` by the thread of the observer, and the loop of `_process_queue`
-- by the worker thread, in any interleaving. `resolve` is what `Path.resolve` gives for a path, `none`
-- for an OSError; it does not change while the path is held. The end of the watching is left out.
use tc_backend.Table.Keys.{Unique-append}
use tc_backend.Watcher.{is_supported}
use tc_backend.Prelude.{
  or_default, ◌≡◌, refl, sym, ap, subst, ◌∙◌, ◌≢◌, inl, inr, Bool, false, not, ◌&&◌, ◌||◌, Option,
  none, some, List, [], ◌∷◌, ◌++◌, map, arith, String, str_eq, eq_iff, if◌then◌else◌, Bool-cases,
  All, Unique,
}

pub record WatchState : Type 0 where
  pub pending : List String
  pub waiting : List String
  pub in_flight : Option String

unfoldable pub in_set : String → List String → Bool
in_set key [] = false
in_set key (k ∷ ks) = str_eq k key || in_set key ks

-- `set.discard`
unfoldable pub discard : String → List String → List String
discard key [] = []
discard key (k ∷ ks) = let rest = discard key ks in if str_eq k key then rest else k ∷ rest

-- `str(path.resolve())`, or `str(path)` at an OSError
abbrev pub path_key : (String → Option String) → String → String
path_key resolve path = or_default (resolve path) path

-- `enqueue`
unfoldable pub enqueue_path :
    (String → Option String) → (String → String) → List String → String → WatchState → WatchState
unfolding is_supported in_set
enqueue_path resolve extension_of extensions path w =
    if not (is_supported extensions (extension_of path)) || in_set (path_key resolve path) w.pending
    then w
    else record w { pending = path_key resolve path ∷ w.pending; waiting = w.waiting ++ path ∷ [] }

-- `self._queue.get()` by the worker thread, when it processes no file
unfoldable pub take_held : List String → Option String → List String → WatchState
take_held pending (some path) waiting = record {
  pending = pending;
  waiting = waiting;
  in_flight = some path;
}
take_held pending none [] = record { pending = pending; waiting = []; in_flight = none }
take_held pending none (path ∷ waiting) = record {
  pending = pending;
  waiting = waiting;
  in_flight = some path;
}

unfoldable pub take_path : WatchState → WatchState
unfolding take_held
take_path w = take_held w.pending w.in_flight w.waiting

-- the `finally` of `_process_queue`
unfoldable pub finish_held :
    (String → Option String) → List String → Option String → List String → WatchState
unfolding discard
finish_held resolve pending none waiting = record {
  pending = pending;
  waiting = waiting;
  in_flight = none;
}
finish_held resolve pending (some path) waiting = record {
  pending = discard (path_key resolve path) pending;
  waiting = waiting;
  in_flight = none;
}

unfoldable pub finish_path : (String → Option String) → WatchState → WatchState
unfolding finish_held
finish_path resolve w = finish_held resolve w.pending w.in_flight w.waiting

pub data WatchEvent : Type 0 where
  detected : String → WatchEvent
  path_taken path_finished : WatchEvent

unfoldable pub run_event :
    (String → Option String)
    → (String → String)
    → List String
    → WatchEvent
    → WatchState
    → WatchState
unfolding enqueue_path take_path finish_path
run_event resolve extension_of extensions (detected path) w =
    enqueue_path resolve extension_of extensions path w
run_event resolve extension_of extensions path_taken w = take_path w
run_event resolve extension_of extensions path_finished w = finish_path resolve w

unfoldable pub run_events :
    (String → Option String)
    → (String → String)
    → List String
    → List WatchEvent
    → WatchState
    → WatchState
unfolding run_event
run_events resolve extension_of extensions [] w = w
run_events resolve extension_of extensions (event ∷ events) w =
    run_events resolve extension_of extensions events
      (run_event resolve extension_of extensions event w)

-- the paths that the watcher holds
abbrev pub held_paths : Option String → List String → List String
held_paths none waiting = waiting
held_paths (some path) waiting = path ∷ waiting

abbrev pub held : WatchState → List String
held w = held_paths w.in_flight w.waiting

-- No file is held twice, and the pending keys are those of the held files.
abbrev pub IsWatch : (String → String) → WatchState → Type 0
IsWatch resolve w =
    Unique resolve (held w)
    × ((key : String) → in_set key w.pending ≡ in_set key (map resolve (held w)))

in_set-append :
    (key k : String) (keys : List String)
    → in_set key (keys ++ k ∷ []) ≡ (in_set key keys || str_eq k key)
unfolding in_set
in_set-append key k [] = ground arith
in_set-append key k (x ∷ xs) = ground (arith, in_set-append key k xs)

either_order : (a b : Bool) → (a || b) ≡ (b || a)
either_order a b = ground arith

unmasked : (a : Bool) → ((false || a) && not false) ≡ a
unmasked a = ground arith

masked : (same rest : Bool) → (rest && not same) ≡ ((same || rest) && not same)
masked same rest = ground arith

str_eq_sym : (a b : String) → str_eq b a ≡ false → str_eq a b ≡ false
str_eq_sym a b e = elim (Bool-cases (str_eq a b)) [
  | inl t ↦ let back = (eq_iff b a).1 (sym ((eq_iff a b).0 t)) in absurd (ground arith)
  | inr t ↦ t
]

in_set-discard :
    (key k : String) (keys : List String)
    → in_set key (discard k keys) ≡ (in_set key keys && not (str_eq k key))
unfolding in_set discard
in_set-discard key k [] = refl
in_set-discard key k (x ∷ xs) = elim (Bool-cases (str_eq x k)) [
  | inl t ↦
      let same : x ≡ k = (eq_iff x k).0 t in
      rw t (rw same (rw (in_set-discard key k xs) (masked (str_eq k key) (in_set key xs))))
  | inr t ↦ rw t (
      rw (in_set-discard key k xs) (elim (Bool-cases (str_eq x key)) [
        | inl h ↦
            let here : x ≡ key = (eq_iff x key).0 h in
            let other : str_eq k key ≡ false = str_eq_sym k key (rw (← here) t) in
            rw h (rw other refl)
        | inr h ↦ rw h refl
      ]))
]

absent :
    (resolve : String → String) (path : String) (paths : List String)
    → in_set (resolve path) (map resolve paths) ≡ false
    → All (λ p. resolve p ≢ resolve path) paths
unfolding in_set
absent resolve path [] e = tt
absent resolve path (p ∷ ps) e = (
  λ same. let t = (eq_iff _ _).1 same in absurd (ground arith),
  absent resolve path ps (ground arith),
)

absent-in_set :
    (resolve : String → String) (path : String) (paths : List String)
    → All (λ p. resolve path ≢ resolve p) paths
    → in_set (resolve path) (map resolve paths) ≡ false
unfolding in_set
absent-in_set resolve path [] a = refl
absent-in_set resolve path (p ∷ ps) a = elim (Bool-cases (str_eq (resolve p) (resolve path))) [
  | inl t ↦ absurd (a.0 (sym ((eq_iff _ _).0 t)))
  | inr t ↦ rw t (absent-in_set resolve path ps a.1)
]

take_held-IsWatch :
    (resolve : String → String) (pending : List String) (in_flight : Option String)
    (waiting : List String)
    → IsWatch resolve (record { pending = pending; waiting = waiting; in_flight = in_flight })
    → IsWatch resolve (take_held pending in_flight waiting)
unfolding take_held
take_held-IsWatch resolve pending (some path) waiting v = v
take_held-IsWatch resolve pending none [] v = v
take_held-IsWatch resolve pending none (path ∷ waiting) v = v

-- The key of the path that is dropped is the key of no other.
dropped :
    (resolve : String → String) (path : String) (waiting : List String) (key : String)
    → All (λ p. resolve path ≢ resolve p) waiting
    → (in_set key (resolve path ∷ map resolve waiting) && not (str_eq (resolve path) key))
      ≡ in_set key (map resolve waiting)
unfolding in_set
dropped resolve path waiting key a = elim (Bool-cases (str_eq (resolve path) key)) [
  | inl t ↦
      let here : resolve path ≡ key = (eq_iff _ _).0 t in
      let gone_there : in_set key (map resolve waiting) ≡ false =
        subst (λ k. in_set k (map resolve waiting) ≡ false) here
          (absent-in_set resolve path waiting a) in
      rw t (rw gone_there refl)
  | inr t ↦ rw t (unmasked (in_set key (map resolve waiting)))
]

finish_held-IsWatch :
    (resolve : String → Option String) (pending : List String) (in_flight : Option String)
    (waiting : List String)
    → IsWatch
        (path_key resolve)
        (record { pending = pending; waiting = waiting; in_flight = in_flight })
    → IsWatch (path_key resolve) (finish_held resolve pending in_flight waiting)
unfolding finish_held
finish_held-IsWatch resolve pending none waiting v = v
finish_held-IsWatch resolve pending (some path) waiting (u, same) = (
  u.1,
  λ key.
      in_set-discard key (path_key resolve path) pending
      ∙ rw (same key) (dropped (path_key resolve) path waiting key u.0),
)

-- A path that is appended to what is held.
held-append :
    (in_flight : Option String) (waiting : List String) (path : String)
    → held_paths in_flight (waiting ++ path ∷ []) ≡ held_paths in_flight waiting ++ path ∷ []
held-append none waiting path = refl
held-append (some p) waiting path = refl

map-append :
    (resolve : String → String) (paths : List String) (path : String)
    → map resolve (paths ++ path ∷ []) ≡ map resolve paths ++ resolve path ∷ []
map-append resolve [] path = refl
map-append resolve (p ∷ ps) path = ap (λ l. resolve p ∷ l) (map-append resolve ps path)

added :
    (resolve : String → String) (path : String) (pending paths : List String)
    → Unique resolve paths × ((key : String) → in_set key pending ≡ in_set key (map resolve paths))
    → in_set (resolve path) pending ≡ false
    → Unique resolve (paths ++ path ∷ [])
      × ((key : String)
          → in_set key (resolve path ∷ pending) ≡ in_set key (map resolve (paths ++ path ∷ [])))
added resolve path pending paths (u, same) e = (
  Unique-append resolve paths path (absent resolve path paths (sym (same (resolve path)) ∙ e)) u,
  λ key. rw (map-append resolve paths path) (
      rw (in_set-append key (resolve path) (map resolve paths)) (
        unfold in_set in
        rw (same key) (either_order (str_eq (resolve path) key) (in_set key (map resolve paths))))),
)

enqueue_path-IsWatch :
    (resolve : String → Option String) (extension_of : String → String) (extensions : List String)
    (path : String) (w : WatchState)
    → IsWatch (path_key resolve) w
    → IsWatch (path_key resolve) (enqueue_path resolve extension_of extensions path w)
unfolding enqueue_path
enqueue_path-IsWatch resolve extension_of extensions path w v =
    elim (Bool-cases (
      not (is_supported extensions (extension_of path))
      || in_set (path_key resolve path) w.pending)) [
        | inl e ↦ rw e v
        | inr e ↦ rw e (
            rw (held-append w.in_flight w.waiting path)
              (added (path_key resolve) path w.pending (held w) v (ground arith)))
      ]

run_event-IsWatch :
    (resolve : String → Option String) (extension_of : String → String) (extensions : List String)
    (event : WatchEvent) (w : WatchState)
    → IsWatch (path_key resolve) w
    → IsWatch (path_key resolve) (run_event resolve extension_of extensions event w)
unfolding run_event take_path finish_path
run_event-IsWatch resolve extension_of extensions (detected path) w v =
    enqueue_path-IsWatch resolve extension_of extensions path w v
run_event-IsWatch resolve extension_of extensions path_taken w v =
    take_held-IsWatch (path_key resolve) w.pending w.in_flight w.waiting v
run_event-IsWatch resolve extension_of extensions path_finished w v =
    finish_held-IsWatch resolve w.pending w.in_flight w.waiting v

-- Whatever is detected while the worker thread takes and finishes files, in any interleaving: no two
-- of the paths that wait or are processed have the same key, and the keys in the pending set are
-- exactly those of these paths, if that was so before.
pub run_events-IsWatch :
    (resolve : String → Option String) (extension_of : String → String) (extensions : List String)
    (events : List WatchEvent) (w : WatchState)
    → IsWatch (path_key resolve) w
    → IsWatch (path_key resolve) (run_events resolve extension_of extensions events w)
unfolding run_events
run_events-IsWatch resolve extension_of extensions [] w v = v
run_events-IsWatch resolve extension_of extensions (event ∷ events) w v =
    run_events-IsWatch resolve extension_of extensions events _
      (run_event-IsWatch resolve extension_of extensions event w v)
