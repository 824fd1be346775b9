-- ===== src/Examples/Safety.antt =====
-- The small server keeps its invariant, and so does every line of a client.
use gstd_1_x.Base.{
  Text, codes, ◌≡◌, ◌≢◌, refl, List, [], ◌∷◌, ◌++◌, Option, none, some, ℕ, ap, text_eq, ◌&&◌,
  Bool-cases, ◌⊎◌, inl, inr, space, slash, arith,
}
use gstd_1_x.ReturnCode.{eok, no_resource}
use gstd_1_x.Action.{done, fault}
use gstd_1_x.GLib.Reference.{reference}
use gstd_1_x.Object.{Context, unset, at, object_read}
use gstd_1_x.Object.Sound.{IsSound}
use gstd_1_x.Session.{walk, get_by_uri, child_of}
use gstd_1_x.Parser.Words.{of_pipeline}
use gstd_1_x.Parser.Dispatch.{parse_cmd}
use gstd_1_x.Parser.SafeLines.{HasNoLooseState}
use gstd_1_x.Parser.Invariant.{parse_cmd-keeps}
use gstd_1_x.Examples.Server.{
  Place, root, pipelines, p0, state, Server, server, no_pipelines, Sane, create, read, update,
  delete,
}

create_keeps : (p : Place) (n d : Option Text) (s : Server) → Sane s → Sane (create p n d s).1
unfolding create
create_keeps pipelines none d s h = h
create_keeps pipelines (some n) d s h = ground arith
create_keeps _ n d s h = h

update_keeps : (p : Place) (v : Text) (s : Server) → Sane s → Sane (update p v s).1
unfolding update
update_keeps state v s h = ground arith
update_keeps _ v s h = h

delete_keeps : (p : Place) (n : Text) (s : Server) → Sane s → Sane (delete p n s).1
unfolding delete
delete_keeps pipelines n s h = ground arith
delete_keeps _ n s h = h

read_keeps : (p : Place) (n : Option Text) (s : Server) → Sane s → Sane (read p n s).1
unfolding read
read_keeps p none s h = h
read_keeps p (some n) s h = h

read_defined : (p : Place) (n : Text) (s : Server) → Sane s → (read p (some n) s).0 ≢ (eok, unset)
unfolding read
read_defined root n s h = ground arith
read_defined pipelines n s h = ground arith
read_defined p0 n s h = ground arith
read_defined state n s h = ground arith

created_defined :
    (p : Place) (n d : Option Text) (s : Server)
    → Sane s
    → (create p n d s).0 ≡ eok
    → (read p n (create p n d s).1).0.1 ≢ unset
unfolding create read
created_defined pipelines none d s h e = cc
created_defined pipelines (some n) d s h e = ground arith
created_defined root n d s h e = cc
created_defined p0 n d s h e = cc
created_defined state n d s h e = cc

server-IsSound : IsSound server Sane
server-IsSound = record {
  create_keeps = create_keeps;
  read_keeps = read_keeps;
  update_keeps = update_keeps;
  delete_keeps = delete_keeps;
  to_string_keeps = λ p s h. h;
  increment_keeps = λ p s h. h;
  decrement_keeps = λ p s h. h;
  read_defined = read_defined;
  created_defined = created_defined;
}

-- A read of the small server writes an object, or fails.
read_cases :
    (p : Place) (n : Text) (s : Server)
    → (read p (some n) s ≡ ((no_resource, unset), s))
      ⊎ ((q : Place) × (read p (some n) s ≡ ((eok, at q), s)))
unfolding read
read_cases root n s = elim (Bool-cases (text_eq n (codes "pipelines"))) [
  | inl e ↦ inr (pipelines, rw e refl)
  | inr e ↦ inl (rw e refl)
]
read_cases pipelines n s = elim (Bool-cases (text_eq n (codes "p0") && s.exists)) [
  | inl e ↦ inr (p0, rw e refl)
  | inr e ↦ inl (rw e refl)
]
read_cases p0 n s = elim (Bool-cases (text_eq n (codes "state"))) [
  | inl e ↦ inr (state, rw e refl)
  | inr e ↦ inl (rw e refl)
]
read_cases state n s = inl refl

-- So a path never leads to no object.
walk-some :
    (p : Place) (names : List Text) (c : Context Server)
    → (walk server (some p) names c).0 ≢ done none
unfolding walk child_of object_read
walk-some p [] c = λ e. cc
walk-some p ([] ∷ names) c = walk-some p names c
walk-some p ((k ∷ n) ∷ names) c = elim (read_cases p (k ∷ n) c.store) [
  | inl e ↦ rw e (λ z. cc)
  | inr (q, e) ↦ rw e (walk-some q names c)
]

no_loose_state : HasNoLooseState reference server Sane
unfolding get_by_uri
no_loose_state args c h e =
    absurd (walk-some root (reference.strsplit_set (of_pipeline args []) slash) c e)

abbrev pub last_byte : Text → ℕ
last_byte [] = 0
last_byte (c ∷ []) = c
last_byte (c ∷ d ∷ s) = last_byte (d ∷ s)

pub last_byte-append : (s : Text) (d : ℕ) → last_byte (s ++ d ∷ []) ≡ d
last_byte-append [] d = refl
last_byte-append (c ∷ []) d = refl
last_byte-append (c ∷ e ∷ s) d = last_byte-append (e ∷ s) d

parse_cmd-keeps_example :
    let r =
      parse_cmd reference server
        (codes "pipeline_create p0 videotestsrc ! fakesink")
        no_pipelines in
    Sane r.1.store × (r.0 ≢ fault)
parse_cmd-keeps_example =
    parse_cmd-keeps reference server Sane server-IsSound no_loose_state
      (codes "pipeline_create p0 videotestsrc ! fakesink")
      ((λ e. cc), λ w e. cc (ap last_byte e, last_byte-append w space)) (λ e. cc) no_pipelines refl
