-- ===== src/Util/Files.antt =====
-- util/komutil.go: `ReplaceRegexInFile`, on a file system and with the regular expressions of Go's
-- `os`, `ioutil` and `regexp`.
use text.Mathlib.Text.{◌==◌ as str_eq}
use kom_operator.Prelude.{
  ℕ, String, if◌then◌else◌, ◌≡◌, ◌≢◌, refl, ◌⊎◌, inl, inr, Bool-cases, eq_iff,
}
use kom_operator.Errors.{Error, Result, ok, err, library_error, Result-cases}

-- `regexp.Compile` gives `ReplaceAllString` of the expression, `os.Stat` the mode of a file; a write
-- may change the file system also where it fails.
pub record Files : Type 1 where
  pub Fs : Type 0
  pub compile : String → Result (String → String → String)
  pub stat : String → Fs → Result ℕ
  pub read_file : String → Fs → Result String
  pub write_file : String → String → ℕ → Fs → Result (Unit {0}) × Fs

module _ (f : Files) (path : String) where
  -- A text that the replacement leaves as it is counts as an error.
  unfoldable pub write_replaced : String → String → ℕ → f.Fs → Result (Unit {0}) × f.Fs
  write_replaced content replaced mode fs =
      if str_eq replaced content
      then (err (library_error "unable to find the content to be replaced"), fs)
      else f.write_file path replaced mode fs

  abbrev pub after_read : (String → String) → ℕ → Result String → f.Fs → Result (Unit {0}) × f.Fs
  after_read replace mode (err e) fs = (err e, fs)
  after_read replace mode (ok content) fs = write_replaced content (replace content) mode fs

  abbrev pub after_stat : (String → String) → Result ℕ → f.Fs → Result (Unit {0}) × f.Fs
  after_stat replace (err e) fs = (err e, fs)
  after_stat replace (ok mode) fs = after_read replace mode (f.read_file path fs) fs

  abbrev pub after_compile :
      Result (String → String → String) → String → f.Fs → Result (Unit {0}) × f.Fs
  after_compile (err e) replace fs = (err e, fs)
  after_compile (ok matcher) replace fs = after_stat (λ s. matcher s replace) (f.stat path fs) fs

  -- `ReplaceRegexInFile`
  unfoldable pub replace_regex_in_file : String → String → f.Fs → Result (Unit {0}) × f.Fs
  replace_regex_in_file match replace fs = after_compile (f.compile match) replace fs

  -- A file that can be read, of this mode and content, whose replacement is another text.
  pub record IsReplaceable (match replace : String) (fs : f.Fs) (matcher : String → String → String)
      (mode : ℕ) (content : String) : Type 0 where
    pub compiles : f.compile match ≡ ok matcher
    pub has_mode : f.stat path fs ≡ ok mode
    pub reads : f.read_file path fs ≡ ok content
    pub differs : matcher content replace ≢ content

  module _ (match replace : String) (fs : f.Fs) where
    -- The file is written once, with the replaced text and its mode, which decides the result.
    abbrev pub Writes : Type 0
    Writes =
        (matcher : String → String → String) × (mode : ℕ) × (content : String) × IsReplaceable match
          replace fs matcher mode content
        × (replace_regex_in_file match replace fs
            ≡ f.write_file path (matcher content replace) mode fs)

    -- There is an error, and no call has changed the file system.
    abbrev pub Refuses : Type 0
    Refuses =
        ((matcher : String → String → String) (mode : ℕ) (content : String)
          → ¬ IsReplaceable match replace fs matcher mode content)
        × ((e : Error) × (replace_regex_in_file match replace fs ≡ (err e, fs)))

    -- `ReplaceRegexInFile` either writes the file once, with the replaced text, which differs from
    -- what it read, and the file's mode, and gives the result of that write; or it gives an error
    -- with the file system as it was, and then the expression does not compile, the file cannot be
    -- read, or the replacement changes nothing.
    pub replace_regex_in_file_lem : Writes ⊎ Refuses
    unfolding replace_regex_in_file write_replaced
    replace_regex_in_file_lem = elim (Result-cases (f.compile match)) [
      | inr (e, compiles) ↦
          inr ((λ matcher mode content h. cc (compiles, h.compiles)), (e, rw compiles refl))
      | inl (matcher, compiles) ↦ elim (Result-cases (f.stat path fs)) [
        | inr (e, stats) ↦
            inr
              ((λ matcher' mode content h. cc (stats, h.has_mode)), (e, rw (compiles, stats) refl))
        | inl (mode, stats) ↦ elim (Result-cases (f.read_file path fs)) [
          | inr (e, reads) ↦ inr (
            (λ matcher' mode' content h. cc (reads, h.reads)),
            (e, rw (compiles, stats, reads) refl),
          )
          | inl (content, reads) ↦ elim (Bool-cases (str_eq (matcher content replace) content)) [
            | inl same ↦ inr (
              (λ matcher' mode' content' h. h.differs (
                  cc (
                    compiles,
                    h.compiles,
                    reads,
                    h.reads,
                    (eq_iff (matcher content replace) content).0 same,
                  ))),
              (
                library_error "unable to find the content to be replaced",
                rw (compiles, stats, reads, same) refl,
              ),
            )
            | inr other ↦ inl (
              matcher,
              mode,
              content,
              record {
                compiles = compiles;
                has_mode = stats;
                reads = reads;
                differs = λ e. cc (other, (eq_iff (matcher content replace) content).1 e);
              },
              rw (compiles, stats, reads, other) refl,
            )
          ]
        ]
      ]
    ]
