-- ===== src/Daemon/Stats/Atomic.antt =====
-- src/feed/coinbase_daemon_main.cpp: what a reader of stats.json can see while it is rewritten.
use jisa.Prelude.{
  ℕ, ◌≤◌, ◌≡◌, refl, ap, ◌∙◌, ◌≢◌, ◌⊎◌, inl, inr, Bool, true, false, Option, none, some, List, [],
  ◌∷◌, ◌++◌, arith, if◌then◌else◌, ==_iff, length, take, All, take_all,
}
use jisa.Prelude.Dict.{nat_key, bytes_key, bytes_same, bytes_same_iff}
use jisa.Daemon.Stats.{Disk, store, rename, tmp_name, dst_name, write_stats}

bytes_same-append : (a b c : List ℕ) → bytes_same (a ++ b) (a ++ c) ≡ bytes_same b c
bytes_same-append [] b c = refl
bytes_same-append (x ∷ a) b c = rw ((==_iff x x).1 refl) (bytes_same-append a b c)

bytes_same-false : (a b : List ℕ) → a ≢ b → bytes_same a b ≡ false
bytes_same-false a b ne = ground (arith, (bytes_same_iff a b).0, ne)

module _ (path : List ℕ) (content : Option (List ℕ)) (disk : Disk) where
  store_self : store path content disk path ≡ content
  unfolding store
  store_self = rw ((bytes_same_iff path path).1 refl) refl

  store_other : (p : List ℕ) → bytes_same p path ≡ false → store path content disk p ≡ disk p
  unfolding store
  store_other p e = rw e refl

module _ (from to : List ℕ) (content : List ℕ) (disk : Disk) where
  rename-some :
      disk from ≡ some content
      → rename from to disk ≡ store from none (store to (some content) disk)
  unfolding rename
  rename-some e = rw (rename, e) refl

  rename_target :
      disk from ≡ some content → bytes_same to from ≡ false → rename from to disk to ≡ some content
  rename_target e apart =
      ap (λ d. d to) (rename-some e)
      ∙ store_other from none (store to (some content) disk) to apart
      ∙ store_self to (some content) disk

  rename_other :
      (p : List ℕ)
      → disk from ≡ some content
      → bytes_same p from ≡ false
      → bytes_same p to ≡ false
      → rename from to disk p ≡ disk p
  rename_other p e a b =
      ap (λ d. d p) (rename-some e)
      ∙ store_other from none (store to (some content) disk) p a
      ∙ store_other to (some content) disk p b

-- The last of the disks, or the first one if there are no others.
abbrev pub final : Disk → List Disk → Disk
final disk [] = disk
final disk (d ∷ ds) = final d ds

-- If the whole text reaches the temporary file: at every moment stats.json holds what it held or the
-- whole text; at the end it holds the text if the temporary file could be opened, and otherwise what
-- it held; and no file but these two changes.
pub write_stats-Atomic :
    (opens : Bool) (room : ℕ) (dir text : List ℕ) (disk : Disk) (p : List ℕ)
    → length text ≤ room
    → p ≢ dir ++ tmp_name
    → p ≢ dir ++ dst_name
    → let steps = write_stats opens room dir text disk in
      let dst = dir ++ dst_name in
      All (λ d. (d dst ≡ disk dst) ⊎ (d dst ≡ some text)) steps
      × (final disk steps dst ≡ (if opens then some text else disk dst))
      × All (λ d. d p ≡ disk p) steps
unfolding write_stats
write_stats-Atomic false room dir text disk p fits not_tmp not_dst = (tt, refl, tt)
write_stats-Atomic true room dir text disk p fits not_tmp not_dst =
    let tmp = dir ++ tmp_name in
    let dst = dir ++ dst_name in
    let opened = store tmp (some []) disk in
    let printed = store tmp (some (take room text)) opened in
    let apart : bytes_same dst tmp ≡ false = bytes_same-append dir dst_name tmp_name in
    let other_tmp = bytes_same-false p tmp not_tmp in
    let other_dst = bytes_same-false p dst not_dst in
    let ready : printed tmp ≡ some text =
      store_self tmp (some (take room text)) opened ∙ ap some (take_all room text fits) in
    let after_open : opened dst ≡ disk dst = store_other tmp (some []) disk dst apart in
    let after_print : printed dst ≡ disk dst =
      store_other tmp (some (take room text)) opened dst apart ∙ after_open in
    let p_open : opened p ≡ disk p = store_other tmp (some []) disk p other_tmp in
    let p_print : printed p ≡ disk p =
      store_other tmp (some (take room text)) opened p other_tmp ∙ p_open in
    let done = rename_target tmp dst text printed ready apart in
    (
      (inl after_open, (inl after_print, (inr done, tt))),
      done,
      (
        p_open,
        (p_print, (rename_other tmp dst text printed p ready other_tmp other_dst ∙ p_print, tt)),
      ),
    )
