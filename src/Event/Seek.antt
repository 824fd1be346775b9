-- ===== src/Event/Seek.antt =====
-- The event that a description stands for: a list of words, each of which overwrites a default.
use gstd_1_x.Base.{
  ℕ, zero, suc, ◌≤◌, ◌≡◌, refl, ap, ◌∙◌, Text, codes, List, [], ◌∷◌, Option, none, some, space, All,
  length, arith,
}
use gstd_1_x.GLib.{GLib}
use gstd_1_x.GLib.Words.{unwords, IsWord, unwords-nonempty, rest_tokens-nonempty}
use gstd_1_x.Event.{
  SeekArguments, EventCalls, to_enum, ascii_to_gint64, ascii_to_double, seek_defaults, or_out,
  read_stop, read_stop_type, read_start, read_start_type, read_flags, read_format, seek_tokens,
  parse_event, make,
}

module _ (g : GLib) where
  strsplit-unwords :
      (n : ℕ) (ws : List Text)
      → All IsWord ws
      → length ws ≤ suc n
      → g.strsplit (unwords ws) space (suc n) ≡ ws
  strsplit-unwords n [] h b = g.strsplit_empty space (suc n)
  strsplit-unwords n (w ∷ []) h b = g.strsplit_last w space n h.0.0 h.0.1
  strsplit-unwords zero (w ∷ v ∷ ws) h b = absurd (omega arith)
  strsplit-unwords (suc n) (w ∷ v ∷ ws) h b =
      g.strsplit_next w (unwords (v ∷ ws)) space n h.0.1
      ∙ ap (λ ts. w ∷ ts)
          (rest_tokens-nonempty (λ s. g.strsplit s space (suc n)) (unwords (v ∷ ws))
              (unwords-nonempty v ws h.1.0.0)
            ∙ strsplit-unwords n (v ∷ ws) h.1 (omega arith))

module _ {Element W : Type 0} (g : GLib) (calls : EventCalls Element W) where
  open calls use {Double, Event}

  abbrev set : {A B : Type 0} → Option A → (A → B) → Option B
  set none f = none
  set (some a) f = some (f a)

  -- What a word does to the arguments, if its conversion takes it.
  abbrev Field : Type 0
  Field = SeekArguments Double → Text → Option (SeekArguments Double)

  abbrev from_stop : List Field
  from_stop = (λ a t. set (ascii_to_gint64 g calls t) (λ v. record a { stop = v })) ∷ []

  abbrev from_stop_type : List Field
  from_stop_type =
      (λ a t. set (ascii_to_gint64 g calls t) (λ v. record a { stop_type = to_enum v })) ∷ from_stop

  abbrev from_start : List Field
  from_start =
      (λ a t. set (ascii_to_gint64 g calls t) (λ v. record a { start = v })) ∷ from_stop_type

  abbrev from_start_type : List Field
  from_start_type =
      (λ a t. set (ascii_to_gint64 g calls t) (λ v. record a { start_type = to_enum v }))
      ∷ from_start

  abbrev from_flags : List Field
  from_flags =
      (λ a t. set (ascii_to_gint64 g calls t) (λ v. record a { flags = to_enum v }))
      ∷ from_start_type

  abbrev from_format : List Field
  from_format =
      (λ a t. set (ascii_to_gint64 g calls t) (λ v. record a { format = to_enum v })) ∷ from_flags

  -- The arguments of a seek in their order.
  abbrev pub fields : List Field
  fields = (λ a t. set (ascii_to_double g calls t) (λ v. record a { rate = v })) ∷ from_format

  abbrev pub and_then : {A B : Type 0} → Option A → (A → Option B) → Option B
  and_then none f = none
  and_then (some a) f = f a

  -- Each word sets its field, and the conversions have to take all of them.
  abbrev pub overwritten :
      List Field → List Text → SeekArguments Double → Option (SeekArguments Double)
  overwritten [] ts a = some a
  overwritten (f ∷ fs) [] a = some a
  overwritten (f ∷ fs) (t ∷ ts) a = and_then (f a t) (overwritten fs ts)

  or_out-and_then :
      {A : Type 0} (o : Option A) (f : A → SeekArguments Double)
      (k : SeekArguments Double → Option Event)
      (rest : SeekArguments Double → Option (SeekArguments Double))
      → ((a : SeekArguments Double) → k a ≡ and_then (rest a) calls.new_seek)
      → or_out g calls o (λ v. k (f v)) ≡ and_then (and_then (set o f) rest) calls.new_seek
  or_out-and_then none f k rest h = refl
  or_out-and_then (some v) f k rest h = h (f v)

  read_stop-overwritten :
      (ts : List Text) (a : SeekArguments Double)
      → read_stop g calls a ts ≡ and_then (overwritten from_stop ts a) calls.new_seek
  read_stop-overwritten [] a = refl
  read_stop-overwritten (t ∷ ts) a =
      or_out-and_then (ascii_to_gint64 g calls t) _ calls.new_seek some (λ a. refl)

  read_stop_type-overwritten :
      (ts : List Text) (a : SeekArguments Double)
      → read_stop_type g calls a ts ≡ and_then (overwritten from_stop_type ts a) calls.new_seek
  read_stop_type-overwritten [] a = refl
  read_stop_type-overwritten (t ∷ ts) a =
      or_out-and_then (ascii_to_gint64 g calls t) _ (λ a. read_stop g calls a ts) _
        (read_stop-overwritten ts)

  read_start-overwritten :
      (ts : List Text) (a : SeekArguments Double)
      → read_start g calls a ts ≡ and_then (overwritten from_start ts a) calls.new_seek
  read_start-overwritten [] a = refl
  read_start-overwritten (t ∷ ts) a =
      or_out-and_then (ascii_to_gint64 g calls t) _ (λ a. read_stop_type g calls a ts) _
        (read_stop_type-overwritten ts)

  read_start_type-overwritten :
      (ts : List Text) (a : SeekArguments Double)
      → read_start_type g calls a ts ≡ and_then (overwritten from_start_type ts a) calls.new_seek
  read_start_type-overwritten [] a = refl
  read_start_type-overwritten (t ∷ ts) a =
      or_out-and_then (ascii_to_gint64 g calls t) _ (λ a. read_start g calls a ts) _
        (read_start-overwritten ts)

  read_flags-overwritten :
      (ts : List Text) (a : SeekArguments Double)
      → read_flags g calls a ts ≡ and_then (overwritten from_flags ts a) calls.new_seek
  read_flags-overwritten [] a = refl
  read_flags-overwritten (t ∷ ts) a =
      or_out-and_then (ascii_to_gint64 g calls t) _ (λ a. read_start_type g calls a ts) _
        (read_start_type-overwritten ts)

  read_format-overwritten :
      (ts : List Text) (a : SeekArguments Double)
      → read_format g calls a ts ≡ and_then (overwritten from_format ts a) calls.new_seek
  read_format-overwritten [] a = refl
  read_format-overwritten (t ∷ ts) a =
      or_out-and_then (ascii_to_gint64 g calls t) _ (λ a. read_flags g calls a ts) _
        (read_flags-overwritten ts)

  seek_tokens-overwritten :
      (ts : List Text)
      → seek_tokens g calls ts
        ≡ and_then (overwritten fields ts (seek_defaults g calls)) calls.new_seek
  unfolding seek_tokens
  seek_tokens-overwritten [] = refl
  seek_tokens-overwritten (t ∷ ts) =
      or_out-and_then (ascii_to_double g calls t) _ (λ a. read_format g calls a ts) _
        (read_format-overwritten ts)

  -- The event "seek" of a description of at most seven words, with one space between any two, is that of
  -- the defaults with the first argument overwritten by the first word, the second by the second and
  -- so on; there is none if the conversion of a word refuses it, which it does by errno only, or if
  -- GStreamer refuses the arguments.
  pub make-seek :
      (ws : List Text)
      → All IsWord ws
      → length ws ≤ 7
      → make g calls (codes "seek") (some (unwords ws))
        ≡ and_then (overwritten fields ws (seek_defaults g calls)) calls.new_seek
  unfolding make parse_event
  make-seek ws h b = rw (strsplit-unwords g 6 ws h b) (seek_tokens-overwritten ws)
