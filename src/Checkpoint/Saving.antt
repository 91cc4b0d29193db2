-- ===== src/Checkpoint/Saving.antt =====
-- `save_checkpoint`: its calls of the file system, each of which may raise.
use drone_swarm_simulator.Prelude.{
  ℕ, Bool, true, false, ◌||◌, List, [], ◌∷◌, ◌++◌, ◌≡◌, ◌⊎◌, inl, inr, refl, ap, ◌∙◌, ◌==◌, ==_iff,
  if◌then◌else◌,
}
use drone_swarm_simulator.Prelude.Members.{All}
use drone_swarm_simulator.Prelude.Results.{Result, ok, err}
use drone_swarm_simulator.Simulation.{Simulation}
use drone_swarm_simulator.Checkpoint.Files.{File, missing, corrupt, archive, archive_of}

-- The directory of the checkpoint: the file at the path, and the temporary files beside it, those
-- that earlier saves have left included, with a number for each name.
pub record Directory (F G : Type 0) : Type 0 where
  pub target : File F G
  pub temporaries : List (ℕ × File F G)

-- `mkdir`, `mkstemp`, `close`, `savez`, `replace`, and `unlink` in the handler.
pub data Call : Type 0 where
  makes_parent makes_temporary closes writes replaces unlinks : Call

pub data WriteError : Type 0 where
  not_written : WriteError

-- What a save leaves, every state of the directory after one of its calls, and how it ends.
pub record Saved (F G : Type 0) : Type 0 where
  pub directory : Directory F G
  pub seen : List (Directory F G)
  pub result : Result WriteError (Unit {0})

module _ {F G : Type 0} where
  abbrev pub content : ℕ → List (ℕ × File F G) → File F G
  content name [] = missing
  content name ((n, file) ∷ rest) =
      let later = content name rest in if n == name then file else later

  abbrev pub set_content : ℕ → File F G → List (ℕ × File F G) → List (ℕ × File F G)
  set_content name file [] = []
  set_content name file ((n, old) ∷ rest) =
      let later = set_content name file rest in
      if n == name then (n, file) ∷ later else (n, old) ∷ later

  abbrev pub remove : ℕ → List (ℕ × File F G) → List (ℕ × File F G)
  remove name [] = []
  remove name ((n, file) ∷ rest) =
      let later = remove name rest in if n == name then later else (n, file) ∷ later

  -- `mkstemp` makes an empty file, which is no archive.
  abbrev pub make_temporary : ℕ → Directory F G → Directory F G
  make_temporary name d = record d { temporaries = (name, corrupt) ∷ d.temporaries }

  abbrev pub write_temporary : ℕ → File F G → Directory F G → Directory F G
  write_temporary name file d = record d { temporaries = set_content name file d.temporaries }

  abbrev pub replace : ℕ → Directory F G → Directory F G
  replace name d = record {
    target = content name d.temporaries;
    temporaries = remove name d.temporaries;
  }

  abbrev pub unlink : ℕ → Directory F G → Directory F G
  unlink name d = record d { temporaries = remove name d.temporaries }

  abbrev pub raised : Directory F G → List (Directory F G) → Saved F G
  raised d seen = record { directory = d; seen = seen; result = err not_written }

  -- The handler: the temporary file is removed, and the exception goes on.
  abbrev pub cleaned : (Call → Bool) → ℕ → Directory F G → List (Directory F G) → Saved F G
  cleaned fails name d seen =
      if fails unlinks then raised d seen else raised (unlink name d) (seen ++ unlink name d ∷ [])

  -- `save_checkpoint`: which calls raise, what an interrupted `savez` has written, and the name that
  -- `mkstemp` takes.
  unfoldable pub save_checkpoint :
      (Call → Bool) → File F G → ℕ → Simulation F G → Directory F G → Saved F G
  save_checkpoint fails partial name sim d =
      let made = make_temporary name d in
      let half = write_temporary name partial made in
      let full = write_temporary name (archive (archive_of sim)) half in
      let moved = replace name full in
      if fails makes_parent || fails makes_temporary
      then raised d []
      else if fails closes
      then raised made (made ∷ [])
      else if fails writes
      then cleaned fails name half (made ∷ half ∷ [])
      else if fails replaces
      then cleaned fails name full (made ∷ half ∷ full ∷ [])
      else record { directory = moved; seen = made ∷ half ∷ full ∷ moved ∷ []; result = ok tt }

  -- `mkstemp`'s documentation: the file is a new one.
  abbrev pub IsFresh : ℕ → Directory F G → Type 0
  IsFresh name d = All (λ e. (e.0 == name) ≡ false) d.temporaries

  set_content-fresh :
      (name : ℕ) (file : File F G) (ts : List (ℕ × File F G))
      → All (λ e. (e.0 == name) ≡ false) ts
      → set_content name file ts ≡ ts
  set_content-fresh name file [] h = refl
  set_content-fresh name file ((n, old) ∷ rest) (e, h) =
      rw e (ap (λ ts. (n, old) ∷ ts) (set_content-fresh name file rest h))

  remove-fresh :
      (name : ℕ) (ts : List (ℕ × File F G))
      → All (λ e. (e.0 == name) ≡ false) ts
      → remove name ts ≡ ts
  remove-fresh name [] h = refl
  remove-fresh name ((n, old) ∷ rest) (e, h) =
      rw e (ap (λ ts. (n, old) ∷ ts) (remove-fresh name rest h))

  if-either :
      (P : Saved F G → Type 0) (b : Bool) (x y : Saved F G)
      → (b ≡ true → P x)
      → (b ≡ false → P y)
      → P (if b then x else y)
  if-either P true x y f g = f refl
  if-either P false x y f g = g refl

  module _ (fails : Call → Bool) (partial : File F G) (name : ℕ) (sim : Simulation F G)
      (d : Directory F G) where
    -- The file at the path is the one that was there, or the whole new one.
    abbrev pub IsWhole : Directory F G → Type 0
    IsWhole x = (x.target ≡ d.target) ⊎ (x.target ≡ archive (archive_of sim))

    -- After a success the new file is at the path and no temporary file was added; after an
    -- exception the file at the path is the one that was there, and a temporary file was added only
    -- if it could not be closed or removed.
    abbrev pub Ends : Directory F G → Result WriteError (Unit {0}) → Type 0
    Ends x (ok _) = (x.target ≡ archive (archive_of sim)) × (x.temporaries ≡ d.temporaries)
    Ends x (err _) =
        (x.target ≡ d.target)
        × ((x.temporaries ≡ d.temporaries) ⊎ ((fails closes ≡ true) ⊎ (fails unlinks ≡ true)))

    pub record IsAtomic (s : Saved F G) : Type 0 where
      pub moments : All IsWhole s.seen
      pub ends : Ends s.directory s.result

    module _ (fresh : IsFresh name d) where
      same_name : (name == name) ≡ true
      same_name = (==_iff name name).1 refl

      written :
          (x y : File F G)
          → set_content name y ((name, x) ∷ d.temporaries) ≡ (name, y) ∷ d.temporaries
      written x y =
          rw same_name (ap (λ ts. (name, y) ∷ ts) (set_content-fresh name y d.temporaries fresh))

      removed : (x : File F G) → remove name ((name, x) ∷ d.temporaries) ≡ d.temporaries
      removed x = rw same_name (remove-fresh name d.temporaries fresh)

      found : (x : File F G) → content name ((name, x) ∷ d.temporaries) ≡ x
      found x = rw same_name refl

      half_temporaries :
          (write_temporary name partial (make_temporary name d)).temporaries
          ≡ (name, partial) ∷ d.temporaries
      half_temporaries = written corrupt partial

      full_temporaries :
          (write_temporary name
            (archive (archive_of sim))
            (write_temporary name partial (make_temporary name d))).temporaries
          ≡ (name, archive (archive_of sim)) ∷ d.temporaries
      full_temporaries =
          ap (set_content name (archive (archive_of sim))) half_temporaries
          ∙ written partial (archive (archive_of sim))

      -- The handler, of a directory with the file that was there and the temporary one.
      cleaned-IsAtomic :
          (x : Directory F G) (file : File F G) (seen : List (Directory F G))
          → x.target ≡ d.target
          → x.temporaries ≡ (name, file) ∷ d.temporaries
          → All IsWhole seen
          → All IsWhole (seen ++ unlink name x ∷ [])
          → IsAtomic (cleaned fails name x seen)
      cleaned-IsAtomic x file seen e t whole after =
          if-either IsAtomic (fails unlinks) _ _
            (λ u. record { moments = whole; ends = (e, inr (inr u)) })
            (λ _. record { moments = after; ends = (e, inl (ap (remove name) t ∙ removed file)) })

    -- Whichever calls raise, and for a new temporary name: after every call of a save the file at
    -- the path is the one that was there or the whole new checkpoint; when the save succeeds, it
    -- is the new checkpoint, and no temporary file was added; when it raises, it is the one that
    -- was there, and a temporary file was added only if it could not be closed or removed.
    pub save_checkpoint-IsAtomic :
        IsFresh name d → IsAtomic (save_checkpoint fails partial name sim d)
    unfolding save_checkpoint
    save_checkpoint-IsAtomic fresh =
        let kept : IsWhole d = inl refl in
        let new = archive (archive_of sim) in
        let half = half_temporaries fresh in
        let full = full_temporaries fresh in
        if-either IsAtomic (fails makes_parent || fails makes_temporary) _ _
          (λ _. record { moments = tt; ends = (refl, inl refl) })
          (λ _.
            if-either IsAtomic (fails closes) _ _
              (λ c. record { moments = (kept, tt); ends = (refl, inr (inl c)) })
              (λ _.
                if-either IsAtomic (fails writes) _ _
                  (λ _.
                    cleaned-IsAtomic fresh _ partial _ refl half (kept, (kept, tt))
                      (kept, (kept, (kept, tt))))
                  (λ _.
                    if-either IsAtomic (fails replaces) _ _
                      (λ _.
                        cleaned-IsAtomic fresh _ new _ refl full (kept, (kept, (kept, tt)))
                          (kept, (kept, (kept, (kept, tt)))))
                      (λ _.
                        let there = ap (content name) full ∙ found fresh new in
                        record {
                          moments = (kept, (kept, (kept, (inr there, tt))));
                          ends = (there, ap (remove name) full ∙ removed fresh new);
                        }))))
