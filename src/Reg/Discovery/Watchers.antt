-- ===== src/Reg/Discovery/Watchers.antt =====
-- The channels of a discovery are the set of its watchers: WatchService adds one, RemoveWatcher takes
-- one away, and a change tells each once.
use foundation_framework.Base.{
  ℕ, suc, ◌+◌, ◌<◌, ◌≡◌, refl, ap, ◌∙◌, All-append, Bool, true, false, ◌||◌, ◌&&◌, not, List, [],
  ◌∷◌, ◌++◌, ◌==◌, if◌then◌else◌, arith, Bool-cases, inl, inr, All, All-map,
}
use foundation_framework.Reg.Discovery.{
  Discovery, KvPair, new_discovery, watch_service, without, remove_watcher, changed,
}

-- The calls that change the watchers.
pub data Call : Type 0 where
  watch : Call
  remove : ℕ → Call

unfoldable pub call : Call → Discovery → Discovery
unfolding watch_service remove_watcher
call watch d = (watch_service d).0
call (remove ch) d = remove_watcher ch d

-- The specification: the number of channels made, and the set of those that are watched.
pub record Watched : Type 0 where
  pub made : ℕ
  pub live : ℕ → Bool

unfoldable pub spec : Call → Watched → Watched
spec watch w = record { made = suc w.made; live = λ c. w.live c || (c == w.made) }
spec (remove ch) w = record w { live = λ c. w.live c && not (c == ch) }

-- How often a channel stands in a list.
unfoldable pub count : ℕ → List ℕ → ℕ
count c [] = 0
count c (x ∷ xs) = let n = count c xs in if x == c then suc n else n

-- The channels of `d` are the set of `w`, each of them once.
pub record Refines (d : Discovery) (w : Watched) : Type 0 where
  pub made : d.next_chan ≡ w.made
  pub fresh : All (λ c. c < d.next_chan) d.chans
  pub once : (c : ℕ) → count c d.chans ≡ (if w.live c then 1 else 0)

count-append :
    (c x : ℕ) (xs : List ℕ) → count c (xs ++ x ∷ []) ≡ count c xs + (if x == c then 1 else 0)
unfolding count
count-append c x [] = ground arith
count-append c x (y ∷ ys) = ground (arith, count-append c x ys)

count-fresh : (n : ℕ) (xs : List ℕ) → All (λ c. c < n) xs → count n xs ≡ 0
unfolding count
count-fresh n [] h = refl
count-fresh n (x ∷ xs) h = ground (arith, count-fresh n xs h.1)

count-without :
    (ch c : ℕ) (xs : List ℕ) → count c (without ch xs) ≡ (if ch == c then 0 else count c xs)
unfolding count without
count-without ch c [] = ground arith
count-without ch c (x ∷ xs) = ground (arith, count-without ch c xs)

All-without : (P : ℕ → Type 0) (ch : ℕ) (xs : List ℕ) → All P xs → All P (without ch xs)
unfolding without
All-without P ch [] h = tt
All-without P ch (x ∷ xs) h = elim (Bool-cases (x == ch)) [
  | inl t ↦ rw t (All-without P ch xs h.1)
  | inr f ↦ rw f (h.0, All-without P ch xs h.1)
]

below_next : (n : ℕ) (xs : List ℕ) → All (λ c. c < n) xs → All (λ c. c < suc n) (xs ++ n ∷ [])
below_next n xs h =
    All-append (λ c. c < suc n) xs (n ∷ []) (All-map (λ c. c < n) (λ c p. omega arith) xs h)
      (omega arith, tt)

watch_once :
    (c n : ℕ) (xs : List ℕ) (live : Bool)
    → All (λ c. c < n) xs
    → count c xs ≡ (if live then 1 else 0)
    → count c (xs ++ n ∷ []) ≡ (if live || (c == n) then 1 else 0)
watch_once c n xs true h e = elim (Bool-cases (n == c)) [
  | inl t ↦
      let same : n ≡ c = ground arith in
      let none_yet : count c xs ≡ 0 = rw (← same) (count-fresh n xs h) in absurd (omega arith)
  | inr f ↦ rw (count-append c n xs) (ground arith)
]
watch_once c n xs false h e = rw (count-append c n xs) (ground arith)

remove_once :
    (c ch : ℕ) (xs : List ℕ) (live : Bool)
    → count c xs ≡ (if live then 1 else 0)
    → count c (without ch xs) ≡ (if live && not (c == ch) then 1 else 0)
remove_once c ch xs true e = rw (count-without ch c xs) (ground arith)
remove_once c ch xs false e = rw (count-without ch c xs) (ground arith)

call-Refines :
    (k : Call) (d : Discovery) (w : Watched) → Refines d w → Refines (call k d) (spec k w)
unfolding call spec watch_service remove_watcher
call-Refines watch d w r = record {
  made = ap suc r.made;
  fresh = below_next d.next_chan d.chans r.fresh;
  once = λ c. rw (← r.made) (watch_once c d.next_chan d.chans (w.live c) r.fresh (r.once c));
}
call-Refines (remove ch) d w r = record {
  made = r.made;
  fresh = All-without (λ c. c < d.next_chan) ch d.chans r.fresh;
  once = λ c. remove_once c ch d.chans (w.live c) (r.once c);
}

unfoldable pub calls : List Call → Discovery → Discovery
calls [] d = d
calls (k ∷ ks) d = calls ks (call k d)

unfoldable pub specs : List Call → Watched → Watched
specs [] w = w
specs (k ∷ ks) w = specs ks (spec k w)

abbrev pub no_watchers : Watched
no_watchers = record { made = 0; live = λ c. false }

calls-Refines :
    (ks : List Call) (d : Discovery) (w : Watched) → Refines d w → Refines (calls ks d) (specs ks w)
unfolding calls specs
calls-Refines [] d w r = r
calls-Refines (k ∷ ks) d w r = calls-Refines ks (call k d) (spec k w) (call-Refines k d w r)

-- Any calls of WatchService and RemoveWatcher on a new discovery leave the channels of the
-- specification's set, each once.
pub new_discovery-Refines :
    (ks : List Call) → Refines (calls ks new_discovery) (specs ks no_watchers)
unfolding new_discovery count
new_discovery-Refines ks =
    calls-Refines ks new_discovery no_watchers
      (record { made = refl; fresh = tt; once = λ c. refl })

count-append_list : (c : ℕ) (xs ys : List ℕ) → count c (xs ++ ys) ≡ count c xs + count c ys
unfolding count
count-append_list c [] ys = omega arith
count-append_list c (x ∷ xs) ys = ground (arith, count-append_list c xs ys)

-- After any calls of WatchService and RemoveWatcher, a change starts one goroutine for each channel
-- of the specification's set, and none for another.
changed_tells_watchers :
    (ks : List Call) (pairs : List KvPair) (c : ℕ)
    → count c (changed pairs (calls ks new_discovery)).told
      ≡ count c (calls ks new_discovery).told + (if (specs ks no_watchers).live c then 1 else 0)
unfolding changed
changed_tells_watchers ks pairs c =
    let d = calls ks new_discovery in
    count-append_list c d.told d.chans
    ∙ ap (λ (n : ℕ). count c d.told + n) ((new_discovery-Refines ks).once c)
