-- ===== src/BlkFile/Scan.antt =====
-- `scan_path`: which files the index holds.
use bitcoin_query_py.Common.{
  ◌≡◌, ◌≢◌, refl, sym, ap, List, [], ◌∷◌, true, false, Option, none, some, ok, err, panic,
  >>=-eq-ok, ok-injective, lift, Result, ◌⊎◌, inl, inr, Bool-cases, regroup, regroup_back,
}
use bitcoin_query_py.Common.Int.{ℤ, ℤ_discrete}
use bitcoin_query_py.Common.Maps.{get, insert, get-insert_self, get-insert_cases, get-insert-some}
use bitcoin_query_py.Errors.{IoError, OpResult}
use bitcoin_query_py.Reader.{Bytes}
use bitcoin_query_py.BlkFile.{
  FileSystem, Files, io, parse_blk_index, resolve_path, add_file, scan_entry, scan_entries,
  check_found, scan_path,
}

io-ok : {A : Type 0} (r : Result IoError A) {a : A} → ◌≡◌ {A = OpResult A} (io r) (ok a) → r ≡ ok a
io-ok (ok a) e = ap ok (ok-injective e)
io-ok (err x) e = cc
io-ok (panic text) e = cc

lift-ok : {A : Type 0} (r : Result ⊥ A) {a : A} → ◌≡◌ {A = OpResult A} (lift r) (ok a) → r ≡ ok a
lift-ok (ok a) e = ap ok (ok-injective e)
lift-ok (err x) e = absurd x
lift-ok (panic text) e = cc

module _ (fs : FileSystem) where
  open fs use {PathBuf, DirEntry, is_file, file_name}

  -- The file at `p` is a regular file whose name gives the index `n`.
  abbrev pub Names : PathBuf → ℤ → Type 0
  Names p n =
      (name : Bytes) × (is_file p ≡ true)
      × (file_name p ≡ some name)
      × (parse_blk_index name ≡ ok (some n))

  -- The entry leads to the file, over its link if it is one.
  abbrev pub LeadsTo : Result IoError DirEntry → PathBuf → Type 0
  LeadsTo e p = (de : DirEntry) × (e ≡ ok de) × (resolve_path fs de ≡ ok p)

  abbrev pub Lists : List (Result IoError DirEntry) → ℤ → PathBuf → Type 0
  Lists [] n p = ⊥
  Lists (e ∷ es) n p = LeadsTo e p × Names p n ⊎ Lists es n p

  -- How one file changes the index.
  abbrev Adds : Files fs → Files fs → PathBuf → Type 0
  Adds m m' p =
      ((n : ℤ) × Names p n × (m' ≡ insert ℤ_discrete n p m)) ⊎ (((n : ℤ) → ¬ Names p n) × (m' ≡ m))

  add_file-index :
      (m m' : Files fs) (p : PathBuf) (name : Bytes) (o : Option ℤ)
      → is_file p ≡ true
      → file_name p ≡ some name
      → parse_blk_index name ≡ ok o
      → add_file fs m p (some name) ≡ ok m'
      → Adds m m' p
  unfolding add_file
  add_file-index m m' p name (some n) file named parsed e =
      inl (n, (name, file, named, parsed), sym (ok-injective (rw parsed at e)))
  add_file-index m m' p name none file named parsed e = inr (
    λ n (name', _, named', parsed'). let same : name ≡ name' = cc in cc,
    sym (ok-injective (rw parsed at e)),
  )

  add_file-Adds :
      (m m' : Files fs) (p : PathBuf) (o : Option Bytes)
      → is_file p ≡ true
      → file_name p ≡ o
      → add_file fs m p o ≡ ok m'
      → Adds m m' p
  unfolding add_file
  add_file-Adds m m' p none file named e = inr (λ n (name, _, other, _). cc, sym (ok-injective e))
  add_file-Adds m m' p (some name) file named e =
      let (o, lifted, _) = >>=-eq-ok (lift (parse_blk_index name)) _ e in
      add_file-index m m' p name o file named (lift-ok (parse_blk_index name) lifted) e

  scan_entry-Adds :
      (m m' : Files fs) (e : Result IoError DirEntry)
      → scan_entry fs m e ≡ ok m'
      → (p : PathBuf) × LeadsTo e p × Adds m m' p
  unfolding scan_entry
  scan_entry-Adds m m' e scanned =
      let (de, opened, step) = >>=-eq-ok (io e) _ scanned in
      let (p, resolved, last) = >>=-eq-ok (io (resolve_path fs de)) _ step in
      (
        p,
        (de, io-ok e opened, io-ok (resolve_path fs de) resolved),
        elim (Bool-cases (is_file p)) [
          | inl file ↦ add_file-Adds m m' p (file_name p) file refl (rw file at last)
          | inr other ↦ not_a_file m m' p other (ok-injective (rw other at last))
        ],
      )
    where
      not_a_file : (m m' : Files fs) (p : PathBuf) → is_file p ≡ false → m ≡ m' → Adds m m' p
      not_a_file m m' p other same = inr (λ n (name, file, _, _). cc, sym same)

  -- The index holds exactly the numbers of `P`, each with a file that `P` gives it.
  pub record IsIndex (P : ℤ → PathBuf → Type 0) (m : Files fs) : Type 0 where
    pub sound : (n : ℤ) (p : PathBuf) → get ℤ_discrete n m ≡ some p → P n p
    pub complete : (n : ℤ) (p : PathBuf) → P n p → (q : PathBuf) × (get ℤ_discrete n m ≡ some q)

  one_file : (e : Result IoError DirEntry) (p q : PathBuf) → LeadsTo e p → LeadsTo e q → p ≡ q
  one_file e p q (de, opened, at) (de', opened', at') = let same : de ≡ de' = cc in cc

  one_number :
      (e : Result IoError DirEntry) (p q : PathBuf) (n i : ℤ)
      → LeadsTo e p
      → LeadsTo e q
      → Names p n
      → Names q i
      → n ≡ i
  one_number e p q n i leads leads' (name, _, named, parsed) (name', _, named', parsed') =
      let file = one_file e p q leads leads' in
      let same : name ≡ name' = cc in let number : some n ≡ some i = cc in cc

  nothing : IsIndex (λ n p. ⊥) []
  unfolding get
  nothing = record { sound = λ n p h. cc; complete = λ n p h. absurd h }

  check_found-ok :
      (collected files : Files fs)
      → check_found fs collected ≡ ok files
      → (collected ≡ files) × (files ≢ [])
  check_found-ok [] files e = cc
  check_found-ok (f ∷ rest) files e = (ok-injective e, λ empty. cc)

  IsIndex-add :
      (P : ℤ → PathBuf → Type 0) (e : Result IoError DirEntry) (m m' : Files fs) (p : PathBuf)
      → IsIndex P m
      → LeadsTo e p
      → Adds m m' p
      → IsIndex (λ n q. P n q ⊎ (LeadsTo e q × Names q n)) m'
  IsIndex-add P e m m' p index leads (inl (n, names, same)) = record {
    sound = λ i q h. elim (get-insert_cases ℤ_discrete n i p m (rw same at h)) [
      | inl (number, file) ↦ inr (rw (← number, ← file) (leads, names))
      | inr (_, old) ↦ inl (index.sound i q old)
    ];
    complete = λ i q h. rw same (elim h [
      | inl old ↦ get-insert-some ℤ_discrete n i p m (index.complete i q old).1
      | inr (leads', names') ↦ (
        p,
        rw (← one_number e p q n i leads leads' names names') (get-insert_self ℤ_discrete n p m),
      )
    ]);
  }
  IsIndex-add P e m m' p index leads (inr (no_name, same)) = record {
    sound = λ i q h. inl (index.sound i q (rw same at h));
    complete = λ i q h. rw same (elim h [
      | inl old ↦ index.complete i q old
      | inr (leads', names') ↦ absurd (no_name i (rw (one_file e q p leads' leads) at names'))
    ]);
  }

  scan_entries-IsIndex :
      (P : ℤ → PathBuf → Type 0) (es : List (Result IoError DirEntry)) (m m' : Files fs)
      → IsIndex P m
      → scan_entries fs m es ≡ ok m'
      → IsIndex (λ n p. P n p ⊎ Lists es n p) m'
  unfolding scan_entries
  scan_entries-IsIndex P [] m m' index e = record {
    sound = λ n p h. inl (index.sound n p (rw (← ok-injective e) at h));
    complete = λ n p h. elim h [
      | inl old ↦ rw (← ok-injective e) (index.complete n p old)
      | inr none_left ↦ absurd none_left
    ];
  }
  scan_entries-IsIndex P (x ∷ es) m m' index e =
      let (m₁, first, later) = >>=-eq-ok (scan_entry fs m x) _ e in
      let (p, leads, adds) = scan_entry-Adds m m₁ x first in
      let rest =
        scan_entries-IsIndex (λ n q. P n q ⊎ (LeadsTo x q × Names q n)) es m₁ m'
          (IsIndex-add P x m m₁ p index leads adds) later in
      record {
        sound = λ n q h. regroup (rest.sound n q h);
        complete = λ n q h. rest.complete n q (regroup_back h);
      }

  -- A scan that succeeds has at least one file, and holds exactly the numbers that the names of
  -- the listed regular files give, each with such a file; a symbolic link counts by its target.
  pub scan_path-IsIndex :
      (path : PathBuf) (es : List (Result IoError DirEntry)) (files : Files fs)
      → fs.read_dir path ≡ ok es
      → scan_path fs path ≡ ok files
      → IsIndex (Lists es) files × (files ≢ [])
  unfolding scan_path
  scan_path-IsIndex path es files listed e =
      let (collected, scanned, checked) =
        >>=-eq-ok (scan_entries fs [] es) (check_found fs) (rw (listed, scan_path) at e) in
      let (same, filled) = check_found-ok collected files checked in
      let index = scan_entries-IsIndex (λ n p. ⊥) es [] collected nothing scanned in
      (
        rw (← same) (record {
          sound = λ n p h. elim (index.sound n p h) [ inl no_entry ↦ absurd no_entry | inr l ↦ l ];
          complete = λ n p h. index.complete n p (inr h);
        }),
        filled,
      )
