-- ===== src/Daemon/Stats.antt =====
-- src/feed/coinbase_daemon_main.cpp: write_stats. A disk is what each path holds; whether the file opens,
-- and how many bytes of the text reach it, are arguments. How numbers are printed is a parameter.
pub mod Atomic
pub mod Thread
use jisa.Prelude.{
  ℕ, Bool, true, false, Option, none, some, List, [], ◌∷◌, ◌++◌, if◌then◌else◌, take,
}
use jisa.Prelude.Int.{ℤ}
use jisa.Prelude.Dict.{bytes_key}
use jisa.Double.{Double}
use jisa.Daemon.Pipeline.{Counters}
use jisa.Daemon.Args.{comma}

abbrev pub Disk : Type 0
Disk = List ℕ → Option (List ℕ)

unfoldable pub store : List ℕ → Option (List ℕ) → Disk → Disk
store path content disk p = if bytes_key.same p path then content else disk p

-- `%.3f`, `%llu`, `%lld` and `std::to_string`
pub record Prints : Type 0 where
  pub print_fixed3 : Double → List ℕ
  pub print_u64 : ℕ → List ℕ
  pub print_i64 : ℤ → List ℕ
  pub print_u32 : ℕ → List ℕ

abbrev pub tmp_name : List ℕ
tmp_name =
    b'/' ∷ b's' ∷ b't' ∷ b'a' ∷ b't' ∷ b's' ∷ b'.' ∷ b'j' ∷ b's' ∷ b'o' ∷ b'n' ∷ b'.' ∷ b't' ∷ b'm'
    ∷ b'p' ∷ []

abbrev pub dst_name : List ℕ
dst_name = b'/' ∷ b's' ∷ b't' ∷ b'a' ∷ b't' ∷ b's' ∷ b'.' ∷ b'j' ∷ b's' ∷ b'o' ∷ b'n' ∷ []

abbrev pub start_field : List ℕ
start_field =
    b'{' ∷ b'"' ∷ b's' ∷ b't' ∷ b'a' ∷ b'r' ∷ b't' ∷ b'_' ∷ b't' ∷ b'i' ∷ b'm' ∷ b'e' ∷ b'_' ∷ b'u'
    ∷ b'n' ∷ b'i' ∷ b'x' ∷ b'"' ∷ b':' ∷ []

abbrev pub now_field : List ℕ
now_field = b',' ∷ b'"' ∷ b'n' ∷ b'o' ∷ b'w' ∷ b'_' ∷ b'u' ∷ b'n' ∷ b'i' ∷ b'x' ∷ b'"' ∷ b':' ∷ []

abbrev pub received_field : List ℕ
received_field =
    b',' ∷ b'"' ∷ b'm' ∷ b'e' ∷ b's' ∷ b's' ∷ b'a' ∷ b'g' ∷ b'e' ∷ b's' ∷ b'_' ∷ b'r' ∷ b'e' ∷ b'c'
    ∷ b'e' ∷ b'i' ∷ b'v' ∷ b'e' ∷ b'd' ∷ b'"' ∷ b':' ∷ []

abbrev pub processed_field : List ℕ
processed_field =
    b',' ∷ b'"' ∷ b'm' ∷ b'e' ∷ b's' ∷ b's' ∷ b'a' ∷ b'g' ∷ b'e' ∷ b's' ∷ b'_' ∷ b'p' ∷ b'r' ∷ b'o'
    ∷ b'c' ∷ b'e' ∷ b's' ∷ b's' ∷ b'e' ∷ b'd' ∷ b'"' ∷ b':' ∷ []

abbrev pub pushed_field : List ℕ
pushed_field =
    b',' ∷ b'"' ∷ b't' ∷ b'i' ∷ b'c' ∷ b'k' ∷ b's' ∷ b'_' ∷ b'p' ∷ b'u' ∷ b's' ∷ b'h' ∷ b'e' ∷ b'd'
    ∷ b'"' ∷ b':' ∷ []

abbrev pub failures_field : List ℕ
failures_field =
    b',' ∷ b'"' ∷ b'p' ∷ b'a' ∷ b'r' ∷ b's' ∷ b'e' ∷ b'_' ∷ b'f' ∷ b'a' ∷ b'i' ∷ b'l' ∷ b'u' ∷ b'r'
    ∷ b'e' ∷ b's' ∷ b'"' ∷ b':' ∷ []

abbrev pub gaps_field : List ℕ
gaps_field = b',' ∷ b'"' ∷ b'g' ∷ b'a' ∷ b'p' ∷ b's' ∷ b'"' ∷ b':' ∷ []

abbrev pub reconnects_field : List ℕ
reconnects_field =
    b',' ∷ b'"' ∷ b'r' ∷ b'e' ∷ b'c' ∷ b'o' ∷ b'n' ∷ b'n' ∷ b'e' ∷ b'c' ∷ b't' ∷ b's' ∷ b'"' ∷ b':'
    ∷ []

abbrev pub alerts_field : List ℕ
alerts_field = b',' ∷ b'"' ∷ b'a' ∷ b'l' ∷ b'e' ∷ b'r' ∷ b't' ∷ b's' ∷ b'"' ∷ b':' ∷ []

abbrev pub unix_ms_field : List ℕ
unix_ms_field =
    b',' ∷ b'"' ∷ b'l' ∷ b'a' ∷ b's' ∷ b't' ∷ b'_' ∷ b'm' ∷ b'e' ∷ b's' ∷ b's' ∷ b'a' ∷ b'g' ∷ b'e'
    ∷ b'_' ∷ b'u' ∷ b'n' ∷ b'i' ∷ b'x' ∷ b'_' ∷ b'm' ∷ b's' ∷ b'"' ∷ b':' ∷ []

abbrev pub ts_ns_field : List ℕ
ts_ns_field =
    b',' ∷ b'"' ∷ b'l' ∷ b'a' ∷ b's' ∷ b't' ∷ b'_' ∷ b'm' ∷ b'e' ∷ b's' ∷ b's' ∷ b'a' ∷ b'g' ∷ b'e'
    ∷ b'_' ∷ b't' ∷ b's' ∷ b'_' ∷ b'n' ∷ b's' ∷ b'"' ∷ b':' ∷ []

abbrev pub streams_field : List ℕ
streams_field = b',' ∷ b'"' ∷ b's' ∷ b't' ∷ b'r' ∷ b'e' ∷ b'a' ∷ b'm' ∷ b's' ∷ b'"' ∷ b':' ∷ []

module _ (prints : Prints) where
  open prints use {print_fixed3, print_u64, print_i64, print_u32}

  -- The loop over the streams; a comma stands before each but the first.
  unfoldable pub join_streams : Bool → List ℕ → List ℕ
  join_streams first [] = []
  join_streams first (s ∷ rest) =
      (if first then [] else comma) ++ (print_u32 s ++ join_streams false rest)

  abbrev pub streams_json : List ℕ → List ℕ
  streams_json streams = b'[' ∷ (join_streams true streams ++ (b']' ∷ []))

  -- What is printed, at the times `start` and `now`.
  unfoldable pub stats_text : Counters → Double → Double → List ℕ → List ℕ
  unfolding join_streams
  stats_text c start now streams =
      start_field
      ++ (print_fixed3 start
          ++ (now_field
              ++ (print_fixed3 now
                  ++ (received_field
                      ++ (print_u64 c.received
                          ++ (processed_field
                              ++ (print_u64 c.processed
                                  ++ (pushed_field
                                      ++ (print_u64 c.pushed
                                          ++ (failures_field
                                              ++ (print_u64 c.parse_failures
                                                  ++ (gaps_field
                                                      ++ (print_u64 c.gaps
                                                          ++ (reconnects_field
                                                            ++ (print_u64 c.reconnects
                                                            ++ (alerts_field
                                                            ++ (print_u64 c.alerts
                                                            ++ (unix_ms_field
                                                            ++ (print_i64 c.last_message_unix_ms
                                                            ++ (ts_ns_field
                                                            ++ (print_i64 c.last_message_ts_ns
                                                            ++ (streams_field
                                                            ++ (streams_json streams
                                                            ++ (b'}' ∷ 10
                                                            ∷ []))))))))))))))))))))))))

-- `std::rename`: the target is replaced, and the old name is gone.
unfoldable pub rename : List ℕ → List ℕ → Disk → Disk
unfolding store
rename from to disk = elim (disk from) [
  | none ↦ disk
  | some content ↦ store from none (store to (some content) disk)
]

-- The disks that write_stats goes through, one for each call that changes it.
unfoldable pub write_stats : Bool → ℕ → List ℕ → List ℕ → Disk → List Disk
unfolding store rename
write_stats opens room dir text disk =
    let tmp = dir ++ tmp_name in
    let opened = store tmp (some []) disk in
    let printed = store tmp (some (take room text)) opened in
    if opens then opened ∷ printed ∷ rename tmp (dir ++ dst_name) printed ∷ [] else []
