-- ===== src/Parser/ElementOrders.antt =====
-- The commands on elements: how a client writes each, and what it asks for.
use mathlib.Core.List.{append_assoc, append-nil}
use gstd_1_x.Base.{Text, codes, ◌≡◌, ◌≢◌, refl, [], ◌∷◌, ◌++◌, space, arith}
use gstd_1_x.GLib.{GLib}
use gstd_1_x.Object.{ObjectTree}
use gstd_1_x.Parser.Words.{str}
use gstd_1_x.Parser.Tokens.{two_tokens, three_tokens, four_tokens, three_of_four}
use gstd_1_x.Parser.Elements.{
  list_elements, list_properties, list_signals, element_set, element_get, signal_connect,
  signal_disconnect, signal_timeout, action_emit,
}
use gstd_1_x.Parser.Requests.{
  Request, create_at, read_at, update_at, IsName, literal, run, raw_cmd-create, raw_cmd-read,
  raw_cmd-read_slash, raw_cmd-update, parse_cmd-word,
}
use gstd_1_x.Parser.Dispatch.{parse_cmd, cmds}

-- p is the name of a pipeline, e of one of its elements, k of what belongs to the element, and v a
-- value.
pub data ElementOrder : Type 0 where
  list_elements_of : (p : Text) → ElementOrder
  list_properties_of : (p e : Text) → ElementOrder
  list_signals_of : (p e : Text) → ElementOrder
  set_property : (p e k v : Text) → ElementOrder
  get_property : (p e k : Text) → ElementOrder
  connect : (p e k : Text) → ElementOrder
  disconnect : (p e k : Text) → ElementOrder
  set_signal_timeout : (p e k v : Text) → ElementOrder
  emit : (p e k : Text) → ElementOrder
  emit_with : (p e k v : Text) → ElementOrder

-- The text of the command.
abbrev pub line : ElementOrder → Text
line (list_elements_of p) = codes "list_elements" ++ space ∷ p
line (list_properties_of p e) = codes "list_properties" ++ space ∷ (p ++ space ∷ e)
line (list_signals_of p e) = codes "list_signals" ++ space ∷ (p ++ space ∷ e)
line (set_property p e k v) =
    codes "element_set" ++ space ∷ (p ++ space ∷ (e ++ space ∷ (k ++ space ∷ v)))
line (get_property p e k) = codes "element_get" ++ space ∷ (p ++ space ∷ (e ++ space ∷ k))
line (connect p e k) = codes "signal_connect" ++ space ∷ (p ++ space ∷ (e ++ space ∷ k))
line (disconnect p e k) = codes "signal_disconnect" ++ space ∷ (p ++ space ∷ (e ++ space ∷ k))
line (set_signal_timeout p e k v) =
    codes "signal_timeout" ++ space ∷ (p ++ space ∷ (e ++ space ∷ (k ++ space ∷ v)))
line (emit p e k) = codes "action_emit" ++ space ∷ (p ++ space ∷ (e ++ space ∷ k))
line (emit_with p e k v) =
    codes "action_emit" ++ space ∷ (p ++ space ∷ (e ++ space ∷ (k ++ space ∷ v)))

-- The names are names, and the arguments of an action, where there are any, are not empty.
abbrev pub IsValid : ElementOrder → Type 0
IsValid (list_elements_of p) = IsName p
IsValid (list_properties_of p e) = IsName p × IsName e
IsValid (list_signals_of p e) = IsName p × IsName e
IsValid (set_property p e k v) = IsName p × IsName e × IsName k
IsValid (get_property p e k) = IsName p × IsName e × IsName k
IsValid (connect p e k) = IsName p × IsName e × IsName k
IsValid (disconnect p e k) = IsName p × IsName e × IsName k
IsValid (set_signal_timeout p e k v) = IsName p × IsName e × IsName k
IsValid (emit p e k) = IsName p × IsName e × IsName k
IsValid (emit_with p e k v) = IsName p × IsName e × IsName k × (v ≢ [])

-- The resource, the verb and the argument.
abbrev pub request : ElementOrder → Request
request (list_elements_of p) = read_at (codes "pipelines" ∷ p ∷ codes "elements" ∷ [])
request (list_properties_of p e) =
    read_at (codes "pipelines" ∷ p ∷ codes "elements" ∷ e ∷ codes "properties" ∷ [])
request (list_signals_of p e) =
    read_at (codes "pipelines" ∷ p ∷ codes "elements" ∷ e ∷ codes "signals" ∷ [])
request (set_property p e k v) =
    update_at (codes "pipelines" ∷ p ∷ codes "elements" ∷ e ∷ codes "properties" ∷ k ∷ []) (str v)
request (get_property p e k) =
    read_at (codes "pipelines" ∷ p ∷ codes "elements" ∷ e ∷ codes "properties" ∷ k ∷ [])
request (connect p e k) =
    read_at
      (codes "pipelines" ∷ p ∷ codes "elements" ∷ e ∷ codes "signals" ∷ k ∷ codes "callback" ∷ [])
request (disconnect p e k) =
    read_at
      (codes "pipelines" ∷ p ∷ codes "elements" ∷ e ∷ codes "signals" ∷ k ∷ codes "disconnect" ∷ [])
request (set_signal_timeout p e k v) =
    update_at
      (codes "pipelines" ∷ p ∷ codes "elements" ∷ e ∷ codes "signals" ∷ k ∷ codes "timeout" ∷ [])
      (str v)
request (emit p e k) =
    create_at (codes "pipelines" ∷ p ∷ codes "elements" ∷ e ∷ codes "actions" ∷ k ∷ []) (str k)
request (emit_with p e k v) =
    create_at (codes "pipelines" ∷ p ∷ codes "elements" ∷ e ∷ codes "actions" ∷ k ∷ [])
      (str (k ++ space ∷ v))

-- An action with arguments: they follow the name of what is created.
action_emit-with :
    (g : GLib) (t : ObjectTree) (p e k v : Text)
    → IsName p × IsName e × IsName k × (v ≢ [])
    → parse_cmd g t (line (emit_with p e k v)) ≡ run g t (request (emit_with p e k v))
unfolding cmds action_emit
action_emit-with g t p e k [] h = absurd (h.3 refl)
action_emit-with g t p e k (x ∷ v) h =
    rw
      (
        parse_cmd-word g t (codes "action_emit")
            ((p ++ space ∷ (e ++ space ∷ (k ++ space ∷ x ∷ v)))) (omega arith),
        four_tokens g p e k (x ∷ v) h.0.no_space h.1.nonempty h.1.no_space h.2.nonempty
            h.2.no_space,
      )
      (raw_cmd-create g t (codes "pipelines") (p ∷ codes "elements" ∷ e ∷ codes "actions" ∷ k ∷ [])
        (k ++ space ∷ x ∷ v) (simp append_assoc) (literal _ refl)
        (h.0, (literal _ refl, (h.1, (literal _ refl, (h.2, tt))))))

-- Every command on an element, on one of its properties, signals or actions, does what its request
-- says: it reads the names from the session on, and acts on the resource that they lead to. The
-- names are not empty and have no slash and no space; a value may have both.
pub parse_cmd-element :
    (g : GLib) (t : ObjectTree) (o : ElementOrder)
    → IsValid o
    → parse_cmd g t (line o) ≡ run g t (request o)
unfolding cmds list_elements list_properties list_signals element_set element_get signal_connect
    signal_disconnect signal_timeout action_emit
parse_cmd-element g t (list_elements_of p) h =
    rw (parse_cmd-word g t (codes "list_elements") (p) (omega arith)) (
      raw_cmd-read_slash g t (codes "pipelines") (p ∷ codes "elements" ∷ [])
        (simp (append_assoc, append-nil)) (literal _ refl) (h, (literal _ refl, tt)))
parse_cmd-element g t (list_properties_of p e) h =
    rw
      (
        parse_cmd-word g t (codes "list_properties") ((p ++ space ∷ e)) (omega arith),
        two_tokens g p e h.0.no_space,
      )
      (raw_cmd-read g t (codes "pipelines") (p ∷ codes "elements" ∷ e ∷ codes "properties" ∷ [])
        (simp (append_assoc, append-nil)) (literal _ refl)
        (h.0, (literal _ refl, (h.1, (literal _ refl, tt)))))
parse_cmd-element g t (list_signals_of p e) h =
    rw
      (
        parse_cmd-word g t (codes "list_signals") ((p ++ space ∷ e)) (omega arith),
        two_tokens g p e h.0.no_space,
      )
      (raw_cmd-read g t (codes "pipelines") (p ∷ codes "elements" ∷ e ∷ codes "signals" ∷ [])
        (simp (append_assoc, append-nil)) (literal _ refl)
        (h.0, (literal _ refl, (h.1, (literal _ refl, tt)))))
parse_cmd-element g t (set_property p e k v) h =
    rw
      (
        parse_cmd-word g t (codes "element_set") ((p ++ space ∷ (e ++ space ∷ (k ++ space ∷ v))))
            (omega arith),
        four_tokens g p e k v h.0.no_space h.1.nonempty h.1.no_space h.2.nonempty h.2.no_space,
      )
      (raw_cmd-update g t (codes "pipelines")
        (p ∷ codes "elements" ∷ e ∷ codes "properties" ∷ k ∷ []) (v) (simp append_assoc)
        (literal _ refl) (h.0, (literal _ refl, (h.1, (literal _ refl, (h.2, tt))))))
parse_cmd-element g t (get_property p e k) h =
    rw
      (
        parse_cmd-word g t (codes "element_get") ((p ++ space ∷ (e ++ space ∷ k))) (omega arith),
        three_tokens g p e k h.0.no_space h.1.nonempty h.1.no_space,
      )
      (raw_cmd-read g t (codes "pipelines") (p ∷ codes "elements" ∷ e ∷ codes "properties" ∷ k ∷ [])
        (simp (append_assoc, append-nil)) (literal _ refl)
        (h.0, (literal _ refl, (h.1, (literal _ refl, (h.2, tt))))))
parse_cmd-element g t (connect p e k) h =
    rw
      (
        parse_cmd-word g t (codes "signal_connect") ((p ++ space ∷ (e ++ space ∷ k))) (omega arith),
        three_tokens g p e k h.0.no_space h.1.nonempty h.1.no_space,
      )
      (raw_cmd-read g t (codes "pipelines")
        (p ∷ codes "elements" ∷ e ∷ codes "signals" ∷ k ∷ codes "callback" ∷ [])
        (simp (append_assoc, append-nil)) (literal _ refl)
        (h.0, (literal _ refl, (h.1, (literal _ refl, (h.2, (literal _ refl, tt)))))))
parse_cmd-element g t (disconnect p e k) h =
    rw
      (
        parse_cmd-word g t (codes "signal_disconnect") ((p ++ space ∷ (e ++ space ∷ k)))
            (omega arith),
        three_tokens g p e k h.0.no_space h.1.nonempty h.1.no_space,
      )
      (raw_cmd-read g t (codes "pipelines")
        (p ∷ codes "elements" ∷ e ∷ codes "signals" ∷ k ∷ codes "disconnect" ∷ [])
        (simp (append_assoc, append-nil)) (literal _ refl)
        (h.0, (literal _ refl, (h.1, (literal _ refl, (h.2, (literal _ refl, tt)))))))
parse_cmd-element g t (set_signal_timeout p e k v) h =
    rw
      (
        parse_cmd-word g t (codes "signal_timeout") ((p ++ space ∷ (e ++ space ∷ (k ++ space ∷ v))))
            (omega arith),
        four_tokens g p e k v h.0.no_space h.1.nonempty h.1.no_space h.2.nonempty h.2.no_space,
      )
      (raw_cmd-update g t (codes "pipelines")
        (p ∷ codes "elements" ∷ e ∷ codes "signals" ∷ k ∷ codes "timeout" ∷ []) (v)
        (simp append_assoc) (literal _ refl)
        (h.0, (literal _ refl, (h.1, (literal _ refl, (h.2, (literal _ refl, tt)))))))
parse_cmd-element g t (emit p e k) h =
    rw
      (
        parse_cmd-word g t (codes "action_emit") ((p ++ space ∷ (e ++ space ∷ k))) (omega arith),
        three_of_four g p e k h.0.no_space h.1.nonempty h.1.no_space h.2.nonempty h.2.no_space,
      )
      (raw_cmd-create g t (codes "pipelines") (p ∷ codes "elements" ∷ e ∷ codes "actions" ∷ k ∷ [])
        (k) (simp (append_assoc, append-nil)) (literal _ refl)
        (h.0, (literal _ refl, (h.1, (literal _ refl, (h.2, tt))))))
parse_cmd-element g t (emit_with p e k v) h = action_emit-with g t p e k v h
