-- ===== src/Daemon/Stats/Thread.antt =====
-- src/feed/coinbase_daemon_main.cpp: the calls of write_stats, those of the stats thread and the last one of
-- main, and what a reader of stats.json can see while they run.
use jisa.Prelude.{
  ℕ, ◌≤◌, ◌≡◌, refl, ap, subst, ◌∙◌, ◌≢◌, ◌⊎◌, inl, inr, Bool, true, false, Option, some, List, [],
  ◌∷◌, ◌++◌, if◌then◌else◌, length, All, All-append,
}
use jisa.Daemon.Stats.{Disk, tmp_name, dst_name, write_stats}
use jisa.Daemon.Stats.Atomic.{final, write_stats-Atomic}

-- A call: whether the temporary file opens, how many bytes reach it, and the text that is printed.
pub record Round : Type 0 where
  pub opens : Bool
  pub room : ℕ
  pub text : List ℕ

-- The disks that the calls go through.
unfoldable pub run_stats : List ℕ → List Round → Disk → List Disk
run_stats dir [] disk = []
run_stats dir (r ∷ rs) disk =
    let steps = write_stats r.opens r.room dir r.text disk in
    steps ++ run_stats dir rs (final disk steps)

-- One of the texts, whole.
abbrev pub Shows : List Round → Option (List ℕ) → Type 0
Shows [] content = ⊥
Shows (r ∷ rs) content = (content ≡ some r.text) ⊎ Shows rs content

-- The text of the last call that could open its file, if there was one.
abbrev pub last_text : List Round → Option (List ℕ) → Option (List ℕ)
last_text [] content = content
last_text (r ∷ rs) content = last_text rs (if r.opens then some r.text else content)

final-append : (disk : Disk) (xs ys : List Disk) → final disk (xs ++ ys) ≡ final (final disk xs) ys
final-append disk [] ys = refl
final-append disk (x ∷ xs) ys = final-append x xs ys

All-map :
    {A : Type 0} {P Q : A → Type 0} → ((x : A) → P x → Q x) → (xs : List A) → All P xs → All Q xs
All-map f [] v = tt
All-map f (x ∷ xs) v = (f x v.0, All-map f xs v.1)

-- What holds of every disk holds of the last one.
final-All :
    (P : Disk → Type 0) (disk : Disk) (ds : List Disk) → P disk → All P ds → P (final disk ds)
final-All P disk [] now v = now
final-All P disk (d ∷ ds) now v = final-All P d ds v.0 v.1

after_call :
    (opens : Bool) (text : List ℕ) (was is : Option (List ℕ)) (rs : List Round) (room : ℕ)
    → (is ≡ (if opens then some text else was)) ⊎ Shows rs is
    → (is ≡ was) ⊎ Shows (record { opens = opens; room = room; text = text } ∷ rs) is
after_call true text was is rs room (inl e) = inr (inl e)
after_call false text was is rs room (inl e) = inl e
after_call opens text was is rs room (inr later) = inr (inr later)

in_call :
    (r : Round) (rs : List Round) (was is : Option (List ℕ))
    → (is ≡ was) ⊎ (is ≡ some r.text)
    → (is ≡ was) ⊎ Shows (r ∷ rs) is
in_call r rs was is (inl e) = inl e
in_call r rs was is (inr e) = inr (inl e)

-- If the whole text reaches the temporary file in every call of write_stats: at every moment of a run of
-- calls stats.json holds what it held before the run or the whole text of one of the calls; at the end it
-- holds the text of the last call that could open the temporary file, and what it held if none could;
-- and no file but these two changes.
pub run_stats-Atomic :
    (dir : List ℕ) (rounds : List Round) (disk : Disk) (p : List ℕ)
    → All (λ r. length r.text ≤ r.room) rounds
    → p ≢ dir ++ tmp_name
    → p ≢ dir ++ dst_name
    → let steps = run_stats dir rounds disk in
      let dst = dir ++ dst_name in
      All (λ d. (d dst ≡ disk dst) ⊎ Shows rounds (d dst)) steps
      × (final disk steps dst ≡ last_text rounds (disk dst))
      × All (λ d. d p ≡ disk p) steps
unfolding run_stats
run_stats-Atomic dir [] disk p fits not_tmp not_dst = (tt, refl, tt)
run_stats-Atomic dir (r ∷ rs) disk p fits not_tmp not_dst =
    let dst = dir ++ dst_name in
    let steps = write_stats r.opens r.room dir r.text disk in
    let mid : Disk = final disk steps in
    let more = run_stats dir rs mid in
    let (now, ends, kept) =
      write_stats-Atomic r.opens r.room dir r.text disk p fits.0 not_tmp not_dst in
    let (later, last, held) = run_stats-Atomic dir rs mid p fits.1 not_tmp not_dst in
    let mid_p : mid p ≡ disk p = final-All (λ d. d p ≡ disk p) disk steps refl kept in
    (
      All-append _ steps more (All-map (λ d v. in_call r rs (disk dst) (d dst) v) steps now) (
          All-map
            (λ d v.
              after_call r.opens r.text (disk dst) (d dst) rs r.room
                (subst (λ was. (d dst ≡ was) ⊎ Shows rs (d dst)) ends v))
            more later),
      ap (λ d. d dst) (final-append disk steps more) ∙ last ∙ ap (last_text rs) ends,
      All-append _ steps more kept (All-map (λ d e. e ∙ mid_p) more held),
    )
