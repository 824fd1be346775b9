-- ===== src/Http/Synced.antt =====
-- What clock synchronisation comes to: which targets are reported, and the base times afterwards.
use gstd_1_x.Base.{
  ℕ, ◌≡◌, ◌≢◌, refl, sym, ap, ◌∙◌, Text, codes, Bool, true, false, List, [], ◌∷◌, ◌++◌,
  append_assoc, append-nil, Option, none, some, All,
}
use mathlib.Core.Path.{subst}
use gstd_1_x.GLib.{GLib}
use gstd_1_x.NodeList.{NodeList, find_child}
use gstd_1_x.Pipeline.{Pipeline}
use gstd_1_x.Http.{status_ok, Method, options, post}
use gstd_1_x.Http.ClockSync.{
  KeepsBaseTimes, AllEnd, and_then, Inside, inside, resync, error, Clocks, Names, quoted,
  append_name, Progress, comma, base_time_text, its_name, element_in, spread, clocked, spread_in,
  sync_element, sync_or_skip, sync_target, sync_targets, handle_clock_sync, success, sync_from,
  on_source, on_names, on_query,
}

-- An array of strings in JSON.
abbrev commas : List Text → Text
commas [] = []
commas (n ∷ ns) = codes "," ++ quoted n ++ commas ns

abbrev entries : List Text → Text
entries [] = []
entries (n ∷ ns) = quoted n ++ commas ns

abbrev pub array_text : List Text → Text
array_text ns = codes "[" ++ entries ns ++ codes "]"

abbrev is_empty : List Text → Bool
is_empty [] = true
is_empty (n ∷ ns) = false

-- The text and the flag of an array that has these names so far.
abbrev written : List Text → Names
written ns = (codes "[" ++ entries ns, is_empty ns)

commas-append :
    (ns : List Text) (n : Text) → commas (ns ++ n ∷ []) ≡ commas ns ++ (codes "," ++ quoted n)
commas-append [] n = append-nil (codes "," ++ quoted n)
commas-append (m ∷ ns) n =
    ap (λ t. codes "," ++ quoted m ++ t) (commas-append ns n)
    ∙ sym (append_assoc (codes "," ++ quoted m) (commas ns) (codes "," ++ quoted n))

append_name-written :
    (ns : List Text) (n : Text) → append_name n (written ns) ≡ written (ns ++ n ∷ [])
append_name-written [] n = simp (append_assoc, append-nil)
append_name-written (m ∷ ns) n = simp (append_assoc, commas-append ns n)

module _ {E W : Type 0} (g : GLib) (strstrip : Text → Text) (clocks : Clocks E W) where
  open clocks use {Clock}

  abbrev if_named : Text → List Text → List Text
  if_named [] ns = ns
  if_named (c ∷ s) ns = (c ∷ s) ∷ ns

  -- The names that a list of targets has.
  abbrev pub named : List Text → List Text
  named [] = []
  named (t ∷ ts) = if_named (strstrip t) (named ts)

  abbrev if_found : Option E → Text → List Text → List Text
  if_found none n ns = ns
  if_found (some e) n ns = n ∷ ns

  abbrev if_missing : Option E → Text → List Text → List Text
  if_missing none n ns = n ∷ ns
  if_missing (some e) n ns = ns

  abbrev with_found : Option E → List E → List E
  with_found none es = es
  with_found (some e) es = e ∷ es

  -- All elements are synchronised, one after the other.
  abbrev sync_all : Option Clock → ℕ → List E → Option W → Option W
  sync_all clock base [] w = w
  sync_all clock base (e ∷ es) w =
      sync_all clock base es
        (and_then g strstrip clocks w (sync_element g strstrip clocks clock base e))

  abbrev progress : List Text → List Text → Option W → Progress W
  progress ss ks w = record { synced = written ss; skipped = written ks; world = w }

  module _ (pipelines : NodeList (Pipeline E)) where
    -- The element of a pipeline that is there and has one.
    abbrev pub element_of : Text → Option E
    element_of n = element_in (find_child its_name pipelines n)

    abbrev pub found : List Text → List Text
    found [] = []
    found (n ∷ ns) = if_found (element_of n) n (found ns)

    abbrev pub not_found : List Text → List Text
    not_found [] = []
    not_found (n ∷ ns) = if_missing (element_of n) n (not_found ns)

    abbrev pub elements : List Text → List E
    elements [] = []
    elements (n ∷ ns) = with_found (element_of n) (elements ns)

    module _ (clock : Option Clock) (base : ℕ) where
      -- One target that has a name, whatever its element.
      sync_or_skip-progress :
          (ts : List Text) (n : Text) (o : Option E) (ss ks fs ms : List Text) (es : List E)
          (w : Option W)
          → ((ss' ks' : List Text) (w' : Option W)
              → sync_targets g strstrip clocks pipelines clock base ts (progress ss' ks' w')
                ≡ progress (ss' ++ fs) (ks' ++ ms) (sync_all clock base es w'))
          → sync_targets g strstrip clocks pipelines clock base ts
              (sync_or_skip g strstrip clocks clock base n o (progress ss ks w))
            ≡ progress
                (ss ++ if_found o n fs)
                (ks ++ if_missing o n ms)
                (sync_all clock base (with_found o es) w)
      sync_or_skip-progress ts n none ss ks fs ms es w more =
          rw (append_name-written ks n, more ss (ks ++ n ∷ []) w, append_assoc ks (n ∷ []) ms) refl
      sync_or_skip-progress ts n (some e) ss ks fs ms es w more =
          rw
            (
              append_name-written ss n,
              more (ss ++ n ∷ []) ks
                  (and_then g strstrip clocks w (sync_element g strstrip clocks clock base e)),
              append_assoc ss (n ∷ []) fs,
            )
            refl

      sync_target-progress :
          (ts : List Text) (n : Text) (ss ks : List Text) (w : Option W)
          → ((ss' ks' : List Text) (w' : Option W)
              → sync_targets g strstrip clocks pipelines clock base ts (progress ss' ks' w')
                ≡ progress
                    (ss' ++ found (named ts))
                    (ks' ++ not_found (named ts))
                    (sync_all clock base (elements (named ts)) w'))
          → sync_targets g strstrip clocks pipelines clock base ts
              (sync_target g strstrip clocks pipelines clock base n (progress ss ks w))
            ≡ progress
                (ss ++ found (if_named n (named ts)))
                (ks ++ not_found (if_named n (named ts)))
                (sync_all clock base (elements (if_named n (named ts))) w)
      sync_target-progress ts [] ss ks w more = more ss ks w
      sync_target-progress ts (c ∷ s) ss ks w more =
          sync_or_skip-progress ts (c ∷ s) (element_of (c ∷ s)) ss ks (found (named ts))
            (not_found (named ts)) (elements (named ts)) w more

      sync_targets-progress :
          (ts ss ks : List Text) (w : Option W)
          → sync_targets g strstrip clocks pipelines clock base ts (progress ss ks w)
            ≡ progress
                (ss ++ found (named ts))
                (ks ++ not_found (named ts))
                (sync_all clock base (elements (named ts)) w)
      unfolding sync_targets
      sync_targets-progress [] ss ks w = rw (append-nil ss, append-nil ks) refl
      sync_targets-progress (t ∷ ts) ss ks w =
          sync_target-progress ts (strstrip t) ss ks w (sync_targets-progress ts)

  -- The elements that an iteration hands out.
  abbrev handed_out : List (Inside E) → List E
  handed_out [] = []
  handed_out (inside e ∷ is) = e ∷ handed_out is
  handed_out (_ ∷ is) = handed_out is

  abbrev if_bin : Bool → List E → List E
  if_bin true es = es
  if_bin false es = []

  -- What stands inside of an element, if it is a bin.
  abbrev insides : W → E → List E
  insides w e = if_bin (clocks.is_bin e) (handed_out (clocks.iterate_recurse e w).results)

  -- Elements, each with what is inside of it.
  abbrev pub with_insides : W → List E → List E
  with_insides w [] = []
  with_insides w (e ∷ es) = (e ∷ insides w e) ++ with_insides w es

  -- The clock is that of the source, if that has one.
  abbrev pub IsClock : Option Clock → Option Clock → Type 0
  IsClock none o = Unit
  IsClock (some c) o = o ≡ some c

  All-append : (P : E → Type 0) (xs ys : List E) → All P xs → All P ys → All P (xs ++ ys)
  All-append P [] ys h k = k
  All-append P (x ∷ xs) ys h k = (h.0, All-append P xs ys h.1 k)

  All-map : (P Q : E → Type 0) (xs : List E) → ((x : E) → P x → Q x) → All P xs → All Q xs
  All-map P Q [] f h = tt
  All-map P Q (x ∷ xs) f h = (f x h.0, All-map P Q xs f h.1)

  module _ (steady : KeepsBaseTimes clocks) (ends : AllEnd clocks) (base : ℕ)
      (clock : Option Clock) where
    -- The base time is given to all of them.
    abbrev given : List E → W → W
    given [] w = w
    given (e ∷ es) w = given es (clocks.set_base_time e base w)

    spread-given :
        (is : List (Inside E)) (w : W)
        → spread g strstrip clocks base is true w ≡ some (given (handed_out is) w)
    unfolding spread
    spread-given [] w = refl
    spread-given (inside e ∷ is) w = spread-given is (clocks.set_base_time e base w)
    spread-given (resync ∷ is) w = spread-given is w
    spread-given (error ∷ is) w = spread-given is w

    spread_in-given :
        (b : Bool) (e : E) (w w' : W)
        → clocks.iterate_recurse e w' ≡ clocks.iterate_recurse e w
        → spread_in g strstrip clocks base b e w'
          ≡ some (given (if_bin b (handed_out (clocks.iterate_recurse e w).results)) w')
    spread_in-given true e w w' h = rw (h, ends e w) (spread-given _ w')
    spread_in-given false e w w' h = refl

    iterate_clocked :
        (c : Option Clock) (x e : E) (w : W)
        → clocks.iterate_recurse x (clocked g strstrip clocks c e w) ≡ clocks.iterate_recurse x w
    iterate_clocked none x e w = refl
    iterate_clocked (some c) x e w = steady.iterate_clock x e c w

    -- One target after the other.
    abbrev after : E → W → W
    after e w = given (e ∷ insides w e) (clocked g strstrip clocks clock e w)

    abbrev after_all : List E → W → W
    after_all [] w = w
    after_all (e ∷ es) w = after_all es (after e w)

    sync_element-after :
        (e : E) (w : W) → sync_element g strstrip clocks clock base e w ≡ some (after e w)
    unfolding sync_element
    sync_element-after e w =
        spread_in-given (clocks.is_bin e) e w _
          (steady.iterate_base_time e e base _ ∙ iterate_clocked clock e e w)

    sync_all-after : (es : List E) (w : W) → sync_all clock base es (some w) ≡ some (after_all es w)
    sync_all-after [] w = refl
    sync_all-after (e ∷ es) w = rw (sync_element-after e w) (sync_all-after es (after e w))

    given-iterate :
        (x : E) (es : List E) (w : W)
        → clocks.iterate_recurse x (given es w) ≡ clocks.iterate_recurse x w
    given-iterate x [] w = refl
    given-iterate x (e ∷ es) w =
        given-iterate x es (clocks.set_base_time e base w) ∙ steady.iterate_base_time x e base w

    after-iterate :
        (x e : E) (w : W) → clocks.iterate_recurse x (after e w) ≡ clocks.iterate_recurse x w
    after-iterate x e w =
        given-iterate x (e ∷ insides w e) (clocked g strstrip clocks clock e w)
        ∙ iterate_clocked clock x e w

    with_insides-after :
        (e : E) (w : W) (es : List E) → with_insides (after e w) es ≡ with_insides w es
    with_insides-after e w [] = refl
    with_insides-after e w (x ∷ es) = rw (after-iterate x e w, with_insides-after e w es) refl

    given-keeps :
        (x : E) (es : List E) (w : W)
        → clocks.get_base_time x w ≡ base
        → clocks.get_base_time x (given es w) ≡ base
    given-keeps x [] w h = h
    given-keeps x (e ∷ es) w h =
        given-keeps x es (clocks.set_base_time e base w) (steady.base_time_kept x e base w h)

    given-sets : (es : List E) (w : W) → All (λ x. clocks.get_base_time x (given es w) ≡ base) es
    given-sets [] w = tt
    given-sets (e ∷ es) w = (
      given-keeps e es (clocks.set_base_time e base w) (steady.base_time_set e base w),
      given-sets es (clocks.set_base_time e base w),
    )

    clocked-base :
        (c : Option Clock) (x e : E) (w : W)
        → clocks.get_base_time x (clocked g strstrip clocks c e w) ≡ clocks.get_base_time x w
    clocked-base none x e w = refl
    clocked-base (some c) x e w = steady.base_time_clock x e c w

    after_all-keeps :
        (x : E) (es : List E) (w : W)
        → clocks.get_base_time x w ≡ base
        → clocks.get_base_time x (after_all es w) ≡ base
    after_all-keeps x [] w h = h
    after_all-keeps x (e ∷ es) w h =
        after_all-keeps x es (after e w)
          (given-keeps x (e ∷ insides w e) _ (clocked-base clock x e w ∙ h))

    after_all-sets :
        (es : List E) (w : W)
        → All (λ x. clocks.get_base_time x (after_all es w) ≡ base) (with_insides w es)
    after_all-sets [] w = tt
    after_all-sets (e ∷ es) w =
        All-append _ (e ∷ insides w e) (with_insides w es)
          (All-map _ _ (e ∷ insides w e) (λ x h. after_all-keeps x es (after e w) h)
            (given-sets (e ∷ insides w e) (clocked g strstrip clocks clock e w)))
          (subst (λ xs. All (λ x. clocks.get_base_time x (after_all es (after e w)) ≡ base) xs)
            (with_insides-after e w es) (after_all-sets es (after e w)))

    given-clock :
        (x : E) (es : List E) (w : W) → clocks.get_clock x (given es w) ≡ clocks.get_clock x w
    given-clock x [] w = refl
    given-clock x (e ∷ es) w =
        given-clock x es (clocks.set_base_time e base w) ∙ steady.clock_base_time x e base w

    clocked-sets :
        (c : Option Clock) (e : E) (w : W)
        → IsClock c (clocks.get_clock e (clocked g strstrip clocks c e w))
    clocked-sets none e w = tt
    clocked-sets (some c) e w = steady.clock_set e c w

    clocked-keeps :
        (c : Option Clock) (x e : E) (w : W)
        → IsClock c (clocks.get_clock x w)
        → IsClock c (clocks.get_clock x (clocked g strstrip clocks c e w))
    clocked-keeps none x e w h = tt
    clocked-keeps (some c) x e w h = steady.clock_kept x e c w h

    after_all-IsClock :
        (x : E) (es : List E) (w : W)
        → IsClock clock (clocks.get_clock x w)
        → IsClock clock (clocks.get_clock x (after_all es w))
    after_all-IsClock x [] w h = h
    after_all-IsClock x (e ∷ es) w h = after_all-IsClock x es (after e w) (
        subst (IsClock clock) (sym (given-clock x (e ∷ insides w e) _))
          (clocked-keeps clock x e w h))

    after_all-clocked :
        (es : List E) (w : W) → All (λ x. IsClock clock (clocks.get_clock x (after_all es w))) es
    after_all-clocked [] w = tt
    after_all-clocked (e ∷ es) w = (
      after_all-IsClock e es (after e w) (
          subst (IsClock clock) (sym (given-clock e (e ∷ insides w e) _)) (clocked-sets clock e w)),
      after_all-clocked es (after e w),
    )

  -- Clock synchronisation from a pipeline that is there and has an element: every target with a name is
  -- reported once and in its order, as synchronised if its pipeline is there and has an element, and
  -- as skipped otherwise. The elements of those synchronised, and all elements inside of them, end with
  -- the base time that the source has had, and those elements with its clock, if it has one. The
  -- conditions are that GStreamer keeps base times and clocks as documented, and accepts the clocks,
  -- and that every iteration over the elements of a bin ends.
  pub handle_clock_sync-synced :
      (steady : KeepsBaseTimes clocks) (ends : AllEnd clocks) (lookup : Text → Option Text)
      (pipelines : NodeList (Pipeline E)) (w : W) (source : Text) (c : ℕ) (targets : Text)
      (p : Pipeline E) (e : E)
      → lookup (codes "source") ≡ some source
      → lookup (codes "targets") ≡ some (c ∷ targets)
      → find_child its_name pipelines source ≡ some p
      → p.pipeline ≡ some e
      → let ns = named (g.strsplit (c ∷ targets) comma 0) in
        let base = clocks.get_base_time e w in
        (w' : W) × (handle_clock_sync g strstrip clocks post (some lookup) pipelines w
          ≡ some (
            record {
              status = status_ok;
              body = some (
                  base_time_text base
                    (array_text (found pipelines ns))
                    (array_text (not_found pipelines ns)));
              allow_methods = codes "POST";
            },
            w',
          ))
        × All (λ x. clocks.get_base_time x w' ≡ base) (with_insides w (elements pipelines ns))
        × All (λ x. IsClock (clocks.get_clock e w) (clocks.get_clock x w')) (elements pipelines ns)
  unfolding handle_clock_sync
  handle_clock_sync-synced steady ends lookup pipelines w source c targets p e hs ht hf he =
      let base = clocks.get_base_time e w in
      let clock = clocks.get_clock e w in
      let ts = g.strsplit (c ∷ targets) comma 0 in
      let es = elements pipelines (named ts) in
      (
        after_all steady ends base clock es w,
        rw (hs, ht, hf, he)
            (rw
              (
                sync_targets-progress pipelines clock base ts [] [] (some w),
                sync_all-after steady ends base clock es w,
              )
              refl),
        after_all-sets steady ends base clock es w,
        after_all-clocked steady ends base clock es w,
      )

  module _ (ends : AllEnd clocks) where
    spread-ends :
        (base : ℕ) (is : List (Inside E)) (w : W) → spread g strstrip clocks base is true w ≢ none
    unfolding spread
    spread-ends base [] w e = cc
    spread-ends base (inside i ∷ is) w e = spread-ends base is (clocks.set_base_time i base w) e
    spread-ends base (resync ∷ is) w e = spread-ends base is w e
    spread-ends base (error ∷ is) w e = spread-ends base is w e

    spread_in-ends :
        (base : ℕ) (b : Bool) (i : E) (w : W) → spread_in g strstrip clocks base b i w ≢ none
    spread_in-ends base true i w = rw (ends i w) (spread-ends base _ w)
    spread_in-ends base false i w = λ e. cc

    sync_all-ends :
        (clock : Option Clock) (base : ℕ) (es : List E) (w : Option W)
        → w ≢ none
        → sync_all clock base es w ≢ none
    unfolding sync_element
    sync_all-ends clock base [] w n = n
    sync_all-ends clock base (e ∷ es) none n = absurd (n refl)
    sync_all-ends clock base (e ∷ es) (some w) n =
        sync_all-ends clock base es _ (spread_in-ends base (clocks.is_bin e) e _)

    success-ends :
        (base : ℕ) (r : Progress W) (w : Option W)
        → r.world ≡ w
        → w ≢ none
        → success g strstrip clocks base r ≢ none
    success-ends base r none h n = absurd (n refl)
    success-ends base r (some w) h n = rw h (λ z. cc)

    module _ (pipelines : NodeList (Pipeline E)) where
      sync_from-ends :
          (targets : Text) (e : E) (w : W)
          → sync_from g strstrip clocks pipelines targets e w ≢ none
      sync_from-ends targets e w =
          let clock = clocks.get_clock e w in
          let base = clocks.get_base_time e w in
          let ts = g.strsplit targets comma 0 in
          success-ends base
            (sync_targets g strstrip clocks pipelines clock base ts (progress [] [] (some w)))
            (sync_all clock base (elements pipelines (named ts)) (some w))
            (ap (λ (r : Progress W). r.world)
              (sync_targets-progress pipelines clock base ts [] [] (some w)))
            (sync_all-ends clock base (elements pipelines (named ts)) (some w) (λ z. cc))

      on_element-ends :
          (targets : Text) (p : Pipeline E) (o : Option E) (w : W)
          → p.pipeline ≡ o
          → on_source g strstrip clocks pipelines targets (some p) w ≢ none
      on_element-ends targets p none w h = rw h (λ z. cc)
      on_element-ends targets p (some e) w h = rw h (sync_from-ends targets e w)

      on_source-ends :
          (targets : Text) (o : Option (Pipeline E)) (w : W)
          → on_source g strstrip clocks pipelines targets o w ≢ none
      on_source-ends targets none w = λ z. cc
      on_source-ends targets (some p) w = on_element-ends targets p p.pipeline w refl

      on_names-ends :
          (source targets : Option Text) (w : W)
          → on_names g strstrip clocks pipelines source targets w ≢ none
      on_names-ends none targets w = λ z. cc
      on_names-ends (some s) none w = λ z. cc
      on_names-ends (some s) (some []) w = λ z. cc
      on_names-ends (some s) (some (c ∷ ts)) w = on_source-ends (c ∷ ts) _ w

      on_query-ends :
          (query : Option (Text → Option Text)) (w : W)
          → on_query g strstrip clocks pipelines query w ≢ none
      on_query-ends none w = λ z. cc
      on_query-ends (some lookup) w = on_names-ends _ _ w

      -- If no iteration goes on for ever, there is a response.
      pub handle_clock_sync-ends :
          (method : Method) (query : Option (Text → Option Text)) (w : W)
          → handle_clock_sync g strstrip clocks method query pipelines w ≢ none
      unfolding handle_clock_sync
      handle_clock_sync-ends options query w = λ z. cc
      handle_clock_sync-ends post query w = on_query-ends query w
      handle_clock_sync-ends _ query w = λ z. cc
