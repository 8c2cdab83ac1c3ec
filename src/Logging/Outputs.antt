-- ===== src/Logging/Outputs.antt =====
-- What is written after an application, or several, has been made.
use global_payments_api.Prelude.{
  ℕ, suc, ◌+◌, ◌≤◌, ◌<◌, ◌≡◌, refl, ap, ◌∙◌, String, Bool, true, false, ◌||◌, List, [], ◌∷◌, ◌++◌,
  none, some, Option, arith, length, ltb, count_if, Bool-cases, ◌⊎◌, All, inl, inr, if◌then◌else◌,
}
use global_payments_api.Logging.{
  Logging, Handler, stdout, Stream, info_level, warning_level, same_name, log_level, engine_name,
  kafka_name, urllib3_name, configure_logging, configure_all, effective_level, writes, outputs,
}

-- One of the loggers that are silenced.
abbrev is_noisy : List String → Bool
is_noisy q = same_name q urllib3_name || (same_name q kafka_name || same_name q engine_name)

-- The logger is one of these, or below one.
abbrev pub is_quiet : List String → Bool
is_quiet [] = false
is_quiet (x ∷ parent) = let rest = is_quiet parent in is_noisy (x ∷ parent) || rest

-- The logger is this one, or below it.
abbrev pub is_below : List String → List String → Bool
is_below name [] = false
is_below name (x ∷ parent) = let rest = is_below name parent in same_name (x ∷ parent) name || rest

-- None of the applications has its engine echo what it does to the logger. `DevelopmentConfig` lets
-- the engine of SQLAlchemy echo, which writes to its logger whatever the level, and by a handler of its
-- own too; only settings with `DEBUG` do this, and only to the logger of the engine or one below it.
abbrev pub IsNotEchoed : List Bool → List String → Type 0
IsNotEchoed all name = (is_below engine_name name ≡ false) ⊎ All (λ debug. debug ≡ false) all

-- Neither the logger nor one above it has a level of its own, but for the root.
abbrev pub IsUnset : Logging → List String → Type 0
IsUnset s [] = Unit
IsUnset s (x ∷ parent) = (s.levels (x ∷ parent) ≡ none) × IsUnset s parent

levels-configure :
    (debug : Bool) (s : Logging) (q : List String)
    → (configure_logging debug s).levels q ≡ (if is_noisy q then some warning_level else s.levels q)
unfolding configure_logging
levels-configure debug s q = ground arith

twice : (b : Bool) (x y : Option ℕ) → (if b then x else if b then x else y) ≡ (if b then x else y)
twice true x y = refl
twice false x y = refl

levels-configure_all :
    (debug : Bool) (earlier : List Bool) (s : Logging) (q : List String)
    → (configure_all (debug ∷ earlier) s).levels q
      ≡ (if is_noisy q then some warning_level else s.levels q)
levels-configure_all debug [] s q = levels-configure debug s q
levels-configure_all debug (next ∷ earlier) s q =
    levels-configure debug (configure_all (next ∷ earlier) s) q
    ∙ ap (λ o. if is_noisy q then some warning_level else o) (levels-configure_all next earlier s q)
    ∙ twice (is_noisy q) (some warning_level) (s.levels q)

disabled-configure_all :
    (all : List Bool) (s : Logging) (q : List String)
    → (configure_all all s).disabled q ≡ s.disabled q
unfolding configure_logging
disabled-configure_all [] s q = refl
disabled-configure_all (debug ∷ earlier) s q = disabled-configure_all earlier s q

effective-configure_all :
    (debug : Bool) (earlier : List Bool) (s : Logging) (q : List String)
    → IsUnset s q
    → effective_level (configure_all (debug ∷ earlier) s) q
      ≡ (if is_quiet q then warning_level else log_level debug)
unfolding effective_level configure_logging
effective-configure_all debug earlier s [] h = refl
effective-configure_all debug earlier s (x ∷ q) h =
    let rest = effective-configure_all debug earlier s q h.1 in
    let own = levels-configure_all debug earlier s (x ∷ q) in
    elim (Bool-cases (is_noisy (x ∷ q))) [
      | inl e ↦ rw (own, e) refl
      | inr e ↦ rw (own, e, h.0) rest
    ]

count-append :
    (p : Handler → Bool) (xs ys : List Handler)
    → count_if p (xs ++ ys) ≡ count_if p xs + count_if p ys
count-append p [] ys = omega arith
count-append p (x ∷ xs) ys = ground (arith, count-append p xs ys)

handlers-configure_all :
    (all : List Bool) (s : Logging) (level : ℕ)
    → info_level ≤ level
    → count_if (writes stdout level) (configure_all all s).handlers
      ≡ count_if (writes stdout level) s.handlers + length all
unfolding configure_logging
handlers-configure_all [] s level h = omega arith
handlers-configure_all (debug ∷ earlier) s level h =
    count-append (writes stdout level) (configure_all earlier s).handlers _
    ∙ ground (arith, handlers-configure_all earlier s level h)

not_below : (debug : Bool) (level : ℕ) → info_level ≤ level → ltb level (log_level debug) ≡ false
not_below debug level h = ground arith

-- After a process has made applications, one or more, from a state in which the logger is enabled and
-- neither it nor one above it has a level of its own: a record of level INFO or above is written to the
-- standard output once for each of the applications, besides what was written before, if the logger
-- is not below one of the silenced. If it is, a record below WARNING is written nowhere, for the
-- loggers of the engine of SQLAlchemy only if no application is in debug mode, where it could echo.
pub outputs-configure_all :
    (debug : Bool) (earlier : List Bool) (s : Logging) (name : List String) (level : ℕ)
    → IsUnset s name
    → s.disabled name ≡ false
    → (is_quiet name ≡ false
        → info_level ≤ level
        → outputs (configure_all (debug ∷ earlier) s) stdout name level
          ≡ count_if (writes stdout level) s.handlers + suc (length earlier))
      × (is_quiet name ≡ true
          → IsNotEchoed (debug ∷ earlier) name
          → level < warning_level
          → (stream : Stream) → outputs (configure_all (debug ∷ earlier) s) stream name level ≡ 0)
unfolding outputs
outputs-configure_all debug earlier s name level unset on =
    let enabled = disabled-configure_all (debug ∷ earlier) s name ∙ on in
    let effective = effective-configure_all debug earlier s name unset in
    (
      λ loud h.
          rw (enabled, effective, loud, not_below debug level h)
            (handlers-configure_all (debug ∷ earlier) s level h),
      λ quiet unechoed h stream. rw (enabled, effective, quiet) (ground arith),
    )
