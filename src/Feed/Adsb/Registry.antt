-- ===== src/Feed/Adsb/Registry.antt =====
-- include/feed/adsb.hpp: the registry of aircraft.
use jisa.Prelude.{
  ℕ, suc, ◌+◌, ◌%◌, ◌^◌, ◌≤◌, ◌<◌, ◌≡◌, refl, sym, ap, subst, ◌∙◌, inl, inr, true, false, Option,
  none, some, List, [], ◌∷◌, arith, leb, Bool-cases, length, need-cases,
}
use jisa.Prelude.Int.{ℤ, ◌≤ℤ◌, ◌<ℤ◌, leb_ℤ}
use jisa.Prelude.Dict.{Dict, nat_key, bytes_key, find, put, find-put}
use jisa.Double.{Double, Arith}
use jisa.Core.Message.{Message}
use jisa.Feed.Json.{Json, string_at, array_at}
use jisa.Feed.Adsb.{
  Handler, StreamState, register, register_found, accept, accept_loop, parse_response,
  read_number_at, read_int64_at, read_value, emit_state, fresh_state, hex_key, lat_key, lon_key,
  seen_key, now_key, ac_key,
}

-- The aircraft in the registry hold the stream ids from the base on, in the order they were first
-- seen.
abbrev pub Numbered : ℕ → ℕ → Dict (List ℕ) StreamState → Type 0
Numbered base i [] = Unit
Numbered base i ((hex, st) ∷ m) = (st.stream_id ≡ (base + i) % 2 ^ 32) × Numbered base (i + 1) m

pub record IsRegistry (base max : ℕ) (h : Handler) : Type 0 where
  pub based : h.base_stream_id ≡ base
  pub capped : h.max_streams ≡ max
  pub room : length h.streams ≤ max
  pub numbered : Numbered base 0 h.streams

-- What becomes of an aircraft that is known: it keeps its stream, and its time does not go back.
pub record Kept (hex : List ℕ) (st : StreamState) (h : Handler) : Type 0 where
  pub now : StreamState
  pub found : find hex h.streams ≡ some now
  pub same_stream : now.stream_id ≡ st.stream_id
  pub not_earlier : st.last_ts_ns ≤ℤ now.last_ts_ns

find_here :
    (hex key : List ℕ) (st : StreamState) (m : Dict (List ℕ) StreamState)
    → bytes_key.same key hex ≡ true
    → find hex ((key, st) ∷ m) ≡ some st
unfolding find
find_here hex key st m e = rw e refl

find_there :
    (hex key : List ℕ) (st : StreamState) (m : Dict (List ℕ) StreamState)
    → bytes_key.same key hex ≡ false
    → find hex ((key, st) ∷ m) ≡ find hex m
unfolding find
find_there hex key st m e = rw e refl

module _ (base : ℕ) (hex : List ℕ) (new : StreamState) where
  Numbered-put_known :
      (i : ℕ) (m : Dict (List ℕ) StreamState) (st : StreamState)
      → find hex m ≡ some st
      → new.stream_id ≡ st.stream_id
      → Numbered base i m
      → (Numbered base i (put hex new m)) × (length (put hex new m) ≡ length m)
  unfolding put find
  Numbered-put_known i [] st found same v = absurd (ground arith)
  Numbered-put_known i ((key, old) ∷ m) st found same v =
      elim (Bool-cases (bytes_key.same key hex)) [
        | inl e ↦
            let here : some old ≡ some st = sym (find_here hex key old m e) ∙ found in
            let id : old.stream_id ≡ st.stream_id = ground (arith, here) in
            rw e ((same ∙ sym id ∙ v.0, v.1), refl)
        | inr e ↦
            let (numbered, long) =
              Numbered-put_known (i + 1) m st (sym (find_there hex key old m e) ∙ found) same v.1 in
            rw e ((v.0, numbered), ap suc long)
      ]

  Numbered-put_new :
      (i : ℕ) (m : Dict (List ℕ) StreamState)
      → find hex m ≡ none
      → new.stream_id ≡ (base + (i + length m)) % 2 ^ 32
      → Numbered base i m
      → (Numbered base i (put hex new m)) × (length (put hex new m) ≡ suc (length m))
  unfolding put find
  Numbered-put_new i [] found id v =
      ((id ∙ ap (λ n. (base + n) % 2 ^ 32) {y = i} (omega arith), tt), refl)
  Numbered-put_new i ((key, old) ∷ m) found id v = elim (Bool-cases (bytes_key.same key hex)) [
    | inl e ↦ absurd (ground (arith, sym (find_here hex key old m e) ∙ found))
    | inr e ↦
        let (numbered, long) =
          Numbered-put_new (i + 1) m (sym (find_there hex key old m e) ∙ found)
            (id ∙ ap (λ n. (base + n) % 2 ^ 32) {y = i + 1 + length m} (omega arith)) v.1 in
        rw e ((v.0, numbered), ap suc long)
  ]

Kept-put_other :
    (hex other : List ℕ) (new st : StreamState) (h : Handler)
    → find other h.streams ≡ some st
    → (bytes_key.same hex other ≡ true
        → (new.stream_id ≡ st.stream_id) × (st.last_ts_ns ≤ℤ new.last_ts_ns))
    → Kept other st (record h { streams = put hex new h.streams })
Kept-put_other hex other new st h found same = elim (Bool-cases (bytes_key.same hex other)) [
  | inl e ↦ record {
    now = new;
    found = find-put hex other new h.streams ∙ rw e refl;
    same_stream = (same e).0;
    not_earlier = (same e).1;
  }
  | inr e ↦ record {
    now = st;
    found = find-put hex other new h.streams ∙ rw e found;
    same_stream = refl;
    not_earlier = omega arith;
  }
]

-- What no operation breaks: the registry stays well formed, and every known aircraft is kept.
pub record Grown (base max : ℕ) (h h' : Handler) : Type 0 where
  pub registry : IsRegistry base max h'
  pub kept : (hex : List ℕ) (st : StreamState) → find hex h.streams ≡ some st → Kept hex st h'

Grown-refl : (base max : ℕ) (h : Handler) → IsRegistry base max h → Grown base max h h
Grown-refl base max h v = record {
  registry = v;
  kept = λ hex st found. record {
    now = st;
    found = found;
    same_stream = refl;
    not_earlier = omega arith;
  };
}

Grown-trans :
    (base max : ℕ) (h h' h'' : Handler)
    → Grown base max h h'
    → Grown base max h' h''
    → Grown base max h h''
Grown-trans base max h h' h'' f g = record {
  registry = g.registry;
  kept = λ hex st found.
      let a = f.kept hex st found in
      let b = g.kept hex a.now a.found in
      record {
        now = b.now;
        found = b.found;
        same_stream = b.same_stream ∙ a.same_stream;
        not_earlier = omega (arith, a.not_earlier, b.not_earlier);
      };
}

module _ (base max : ℕ) (hex : List ℕ) (ts_ns : ℤ) (value : Double) (h : Handler)
    (v : IsRegistry base max h) where
  register_new :
      find hex h.streams ≡ none
      → length h.streams < max
      → Grown base max h (emit_state hex (fresh_state ts_ns h) value h).0
  register_new unknown lt =
      let st = record (fresh_state ts_ns h) { seq = 1 % 2 ^ 64 } in
      let id : st.stream_id ≡ (base + (0 + length h.streams)) % 2 ^ 32 =
        ap (λ b. (b + length h.streams) % 2 ^ 32) v.based
        ∙ ap (λ n. (base + n) % 2 ^ 32) {y = 0 + length h.streams} (omega arith) in
      let (numbered, long) = Numbered-put_new base hex st 0 h.streams unknown id v.numbered in
      record {
        registry = record {
          based = v.based;
          capped = v.capped;
          room = omega (arith, long);
          numbered = numbered;
        };
        kept = λ other old found.
            Kept-put_other hex other st old h found
              (λ e. absurd (ground (arith, bytes_key.same_iff hex other, unknown, found)));
      }

  register_known :
      (st : StreamState)
      → find hex h.streams ≡ some st
      → st.last_ts_ns <ℤ ts_ns
      → Grown base max h (emit_state hex (record st { last_ts_ns = ts_ns }) value h).0
  register_known st known lt =
      let new = record st { last_ts_ns = ts_ns; seq = (st.seq + 1) % 2 ^ 64 } in
      let (numbered, long) = Numbered-put_known base hex new 0 h.streams st known refl v.numbered in
      record {
        registry = record {
          based = v.based;
          capped = v.capped;
          room = omega (arith, long, v.room);
          numbered = numbered;
        };
        kept = λ other old found. Kept-put_other hex other new old h found (λ e.
            let same_hex : hex ≡ other = (bytes_key.same_iff hex other).0 e in
            let same : st ≡ old =
              ground (arith, sym known ∙ ap (λ k. find k h.streams) same_hex ∙ found) in
            (
              ap (λ s. s.stream_id) same,
              subst (λ s. s.last_ts_ns ≤ℤ ts_ns) same (omega (arith, lt)),
            ));
      }

  register_found-Grown :
      (o : Option StreamState)
      → find hex h.streams ≡ o
      → Grown base max h (register_found o hex ts_ns value h).0
  register_found-Grown none unknown = elim (Bool-cases (leb h.max_streams (length h.streams))) [
    | inl full ↦ rw full (Grown-refl base max h v)
    | inr free ↦ rw free (register_new unknown (ground (arith, v.capped, free)))
  ]
  register_found-Grown (some st) known = elim (Bool-cases (leb_ℤ ts_ns st.last_ts_ns)) [
    | inl stale ↦ rw stale (Grown-refl base max h v)
    | inr new ↦ rw new (register_known st known (ground (arith, new)))
  ]

  register-Grown : Grown base max h (register hex ts_ns value h).0
  unfolding register
  register-Grown = register_found-Grown (find hex h.streams) refl

module _ (base max : ℕ) (fp : Arith) (json : Json) where
  open json use {Elem}

  accept-Grown :
      (aircraft : Elem) (now_ms : ℤ) (h : Handler)
      → IsRegistry base max h
      → Grown base max h (accept fp json aircraft now_ms h).0
  unfolding accept register
  accept-Grown aircraft now_ms h v =
      let P = λ (r : Handler × Option Message). Grown base max h r.0 in
      let same = Grown-refl base max h v in
      need-cases P (string_at json aircraft hex_key) _ _ same (λ hex _.
        need-cases P (read_number_at fp json aircraft lat_key) _ _ same (λ lat _.
          need-cases P (read_number_at fp json aircraft lon_key) _ _ same (λ lon _.
            need-cases P (read_number_at fp json aircraft seen_key) _ _ same (λ seen _.
              need-cases P (read_value fp json h.metric aircraft) _ _ same
                (λ value _. register-Grown base max hex _ value h v)))))

  accept_loop-Grown :
      (ac : List Elem) (now_ms : ℤ) (h : Handler)
      → IsRegistry base max h
      → Grown base max h (accept_loop fp json ac now_ms h).0
  unfolding accept_loop
  accept_loop-Grown [] now_ms h v = Grown-refl base max h v
  accept_loop-Grown (aircraft ∷ ac) now_ms h v =
      let one = accept-Grown aircraft now_ms h v in
      Grown-trans base max h _ _ one (accept_loop-Grown ac now_ms _ one.registry)

  -- Whatever a poll returns, the registry never holds more aircraft than its cap; the aircraft in
  -- it have the stream ids from the base on, in the order they were first seen; and an aircraft
  -- that it held before keeps its stream, with a time that does not go back.
  pub parse_response-Grown :
      (raw : List ℕ) (h : Handler)
      → IsRegistry base max h
      → Grown base max h (parse_response fp json raw h).0
  unfolding parse_response
  parse_response-Grown raw h v =
      let P = λ (r : Handler × List Message). Grown base max h r.0 in
      let same = Grown-refl base max h v in
      need-cases P (json.parse raw) _ _ same (λ doc _.
        need-cases P (read_int64_at fp json doc now_key) _ _ same (λ now_ms _.
          need-cases P (array_at json doc ac_key) _ _ same
            (λ ac _. accept_loop-Grown ac now_ms h v)))
