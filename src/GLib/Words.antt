-- ===== src/GLib/Words.antt =====
-- Lists of words, and how GLib's functions take them apart.
use gstd_1_x.Base.{◌≡◌, ◌≢◌, refl, ap, ◌∙◌, Text, List, [], ◌∷◌, ◌++◌, space, Free, All}
use gstd_1_x.GLib.{GLib, rest_tokens}

-- The words with one space between any two.
abbrev pub unwords : List Text → Text
unwords [] = []
unwords (w ∷ []) = w
unwords (w ∷ v ∷ ws) = w ++ space ∷ unwords (v ∷ ws)

abbrev pub IsWord : Text → Type 0
IsWord w = (w ≢ []) × Free space w

pub unwords-nonempty : (w : Text) (ws : List Text) → w ≢ [] → unwords (w ∷ ws) ≢ []
unwords-nonempty w [] n = n
unwords-nonempty [] (v ∷ ws) n = absurd (n refl)
unwords-nonempty (c ∷ w) (v ∷ ws) n = λ e. cc

pub rest_tokens-nonempty :
    (split : Text → List Text) (s : Text) → s ≢ [] → rest_tokens split s ≡ split s
rest_tokens-nonempty split [] n = absurd (n refl)
rest_tokens-nonempty split (c ∷ s) n = refl

-- The words, without a limit on their number.
pub strsplit_all-unwords :
    (g : GLib) (ws : List Text) → All IsWord ws → g.strsplit_all (unwords ws) space ≡ ws
strsplit_all-unwords g [] h = g.strsplit_all_empty space
strsplit_all-unwords g (w ∷ []) h = g.strsplit_all_last w space h.0.0 h.0.1
strsplit_all-unwords g (w ∷ v ∷ ws) h =
    g.strsplit_all_next w (unwords (v ∷ ws)) space h.0.1
    ∙ ap (λ ts. w ∷ ts)
        (rest_tokens-nonempty (λ s. g.strsplit_all s space) (unwords (v ∷ ws))
            (unwords-nonempty v ws h.1.0.0)
          ∙ strsplit_all-unwords g (v ∷ ws) h.1)
