-- ===== src/Forwarder/Config/Loading.antt =====
-- `load_config` on a file of settings.
use remote_trans.Base.{
  ℕ, zero, suc, ◌+◌, ◌≤◌, ◌<◌, ◌≡◌, refl, ap, ◌∙◌, Bool, true, false, not, ◌&&◌, some, List, [],
  ◌∷◌, ◌++◌, ◌==◌, pos, arith, length, length-append, All, All-append, append_assoc,
}
use remote_trans.Floats.{Floats}
use remote_trans.Forwarder.Types.{Config}
use remote_trans.Forwarder.Lines.{is_white, is_empty, starts_comment, setting, read_line}
use remote_trans.Forwarder.Lines.Trim.{Solid}
use remote_trans.Forwarder.Lines.Reading.{IsKey, NoEquals, written, read_line-written}
use remote_trans.Forwarder.Config.Settings.{name, setting_of, outcome, assign-setting}
use remote_trans.Forwarder.Config.{
  Key, target_ip, assign_found, all_keys, find_key, assign, obey, c_string, fgets, load_lines,
  load_config,
}

-- Neither a line feed nor the 0 that ends a string.
abbrev pub Inline : List ℕ → Type 0
Inline = All (λ c. ((c == 10) ≡ false) × ((c == 0) ≡ false))

-- A value without white space that a line has room for.
pub record IsValue (k : Key) (value : List ℕ) : Type 0 where
  pub solid : Solid value
  pub no_zero : All (λ c. (c == 0) ≡ false) value
  pub room : length (name k) + length value ≤ 251

-- "key = value" and a line feed.
abbrev pub setting_line : Key → List ℕ → List ℕ
setting_line k value = written (name k) (32 ∷ []) (32 ∷ []) value ++ 10 ∷ []

abbrev pub settings_file : List (Key × List ℕ) → List ℕ
settings_file [] = []
settings_file ((k, value) ∷ es) = setting_line k value ++ settings_file es

abbrev assign_all : Floats → List (Key × List ℕ) → Config → Config
assign_all fl [] c = c
assign_all fl ((k, value) ∷ es) c = assign_all fl es (assign fl k value c)

-- The texts of the keys, by computation.
abbrev is_plain : ℕ → Bool
is_plain c = not (is_white c) && (not (c == 61) && not (c == 0))

abbrev all_plain : List ℕ → Bool
all_plain [] = true
all_plain (c ∷ cs) = is_plain c && all_plain cs

abbrev Plain : List ℕ → Type 0
Plain = All (λ c. is_plain c ≡ true)

all_plain-Plain : (cs : List ℕ) → all_plain cs ≡ true → Plain cs
all_plain-Plain [] h = tt
all_plain-Plain (c ∷ cs) h = (ground (arith, h), all_plain-Plain cs (ground (arith, h)))

record Found (k : Key) : Type 0 where
  found : find_key (name k) all_keys ≡ some k
  plain : all_plain (name k) ≡ true
  there : is_empty (name k) ≡ false
  no_comment : starts_comment (name k) ≡ false

name-Found : (k : Key) → Found k
unfolding find_key
name-Found target_ip = record { found = refl; plain = refl; there = refl; no_comment = refl }
name-Found k = record { found = refl; plain = refl; there = refl; no_comment = refl }

Plain-solid : (cs : List ℕ) → Plain cs → All (λ c. is_white c ≡ false) cs
Plain-solid [] v = tt
Plain-solid (c ∷ cs) v = (ground (arith, v.0), Plain-solid cs v.1)

Plain-NoEquals : (cs : List ℕ) → Plain cs → NoEquals cs
Plain-NoEquals [] v = tt
Plain-NoEquals (c ∷ cs) v = (ground (arith, v.0), Plain-NoEquals cs v.1)

Plain-Inline : (cs : List ℕ) → Plain cs → Inline cs
Plain-Inline [] v = tt
Plain-Inline (c ∷ cs) v = ((ground (arith, v.0), ground (arith, v.0)), Plain-Inline cs v.1)

solid-Inline :
    (cs : List ℕ) → All (λ c. is_white c ≡ false) cs → All (λ c. (c == 0) ≡ false) cs → Inline cs
solid-Inline [] v z = tt
solid-Inline (c ∷ cs) v z = ((ground (arith, v.0), z.0), solid-Inline cs v.1 z.1)

is_empty-front :
    (cs ds es fs : List ℕ) → is_empty cs ≡ false → is_empty (((cs ++ ds) ++ es) ++ fs) ≡ false
is_empty-front [] ds es fs h = cc
is_empty-front (c ∷ cs) ds es fs h = refl

-- A line that ends within the room.
fgets-line :
    (room : ℕ) (line rest : List ℕ)
    → Inline line
    → length line < room
    → fgets room (line ++ 10 ∷ rest) ≡ (line ++ 10 ∷ [], rest)
unfolding fgets
fgets-line zero line rest v h = absurd (omega arith)
fgets-line (suc room) [] rest v h = refl
fgets-line (suc room) (c ∷ cs) rest v h =
    rw (v.0.0)
      (ap (λ (r : List ℕ × List ℕ). (c ∷ r.0, r.1)) (fgets-line room cs rest v.1 (omega arith)))

c_string-line : (line : List ℕ) → Inline line → c_string (line ++ 10 ∷ []) ≡ line ++ 10 ∷ []
c_string-line [] v = refl
c_string-line (c ∷ cs) v = rw v.0.1 (ap (◌∷◌ c) (c_string-line cs v.1))

module _ (k : Key) (value : List ℕ) (v : IsValue k value) where
  plain : Plain (name k)
  plain = all_plain-Plain (name k) (name-Found k).plain

  name-IsKey : IsKey (name k)
  name-IsKey = record {
    solid = ((name-Found k).there, Plain-solid (name k) plain);
    no_equals = Plain-NoEquals (name k) plain;
    no_comment = (name-Found k).no_comment;
  }

  abbrev line : List ℕ
  line = written (name k) (32 ∷ []) (32 ∷ []) value

  line-Inline : Inline line
  line-Inline =
      All-append _ (name k) _ (Plain-Inline (name k) plain)
        ((refl, refl), ((refl, refl), ((refl, refl), solid-Inline value v.solid.1 v.no_zero)))

  length-line : length line ≤ 254
  length-line = omega (arith, v.room, length-append (name k) (32 ∷ (61 ∷ (32 ∷ value))))

  read_line-line : read_line (line ++ 10 ∷ []) ≡ setting (name k) value
  read_line-line =
      read_line-written [] (name k) (32 ∷ []) (32 ∷ []) value (10 ∷ []) name-IsKey v.solid tt
        (refl, tt) (refl, tt) (refl, tt)

  obeyed :
      (fl : Floats) (cfg : Config)
      → obey fl (read_line (c_string (line ++ 10 ∷ []))) cfg ≡ assign fl k value cfg
  obeyed fl cfg =
      ap (λ cs. obey fl (read_line cs) cfg) (c_string-line line line-Inline)
      ∙ ap (λ l. obey fl l cfg) read_line-line
      ∙ ap (λ o. assign_found fl o value cfg) (name-Found k).found

settings_file-length :
    (k : Key) (value rest : List ℕ) (n : ℕ)
    → length (setting_line k value ++ rest) ≤ suc n
    → length rest ≤ n
settings_file-length k value rest n h = omega (
  arith,
  h,
  length-append (setting_line k value) rest,
  length-append (written (name k) (32 ∷ []) (32 ∷ []) value) (10 ∷ []),
)

-- Each setting of a list is a key with a value that its line has room for.
abbrev pub AreValues : List (Key × List ℕ) → Type 0
AreValues = All (λ (e : Key × List ℕ). IsValue e.0 e.1)

module _ (fl : Floats) where
  load_lines-round :
      (fuel : ℕ) (cs : List ℕ) (cfg : Config)
      → is_empty cs ≡ false
      → load_lines fl (suc fuel) cs cfg
        ≡ load_lines fl fuel (fgets 255 cs).1 (obey fl (read_line (c_string (fgets 255 cs).0)) cfg)
  unfolding load_lines
  load_lines-round fuel [] cfg h = cc
  load_lines-round fuel (c ∷ cs) cfg h = refl

  -- One round of the loop takes one line.
  load_lines-line :
      (fuel : ℕ) (k : Key) (value rest : List ℕ) (cfg : Config)
      → IsValue k value
      → load_lines fl (suc fuel) (setting_line k value ++ rest) cfg
        ≡ load_lines fl fuel rest (assign fl k value cfg)
  load_lines-line fuel k value rest cfg v =
      load_lines-round fuel (setting_line k value ++ rest) cfg
        (is_empty-front (name k) _ _ _ (name-Found k).there)
      ∙ ap
          (λ (r : List ℕ × List ℕ). load_lines fl fuel r.1 (obey fl (read_line (c_string r.0)) cfg))
          first
      ∙ ap (load_lines fl fuel rest) (obeyed k value v fl cfg)
    where
      first : fgets 255 (setting_line k value ++ rest) ≡ (setting_line k value, rest)
      first =
          ap (fgets 255) (append_assoc (line k value v) (10 ∷ []) rest)
          ∙ fgets-line 255 (line k value v) rest (line-Inline k value v)
              (omega (arith, length-line k value v))

  load_lines-settings :
      (fuel : ℕ) (es : List (Key × List ℕ)) (cfg : Config)
      → AreValues es
      → length (settings_file es) ≤ fuel
      → load_lines fl fuel (settings_file es) cfg ≡ assign_all fl es cfg
  unfolding load_lines
  load_lines-settings zero [] cfg v h = refl
  load_lines-settings (suc fuel) [] cfg v h = refl
  load_lines-settings zero ((k, value) ∷ es) cfg v h = absurd (
      omega (
        arith,
        h,
        length-append (setting_line k value) (settings_file es),
        length-append (written (name k) (32 ∷ []) (32 ∷ []) value) (10 ∷ []),
      ))
  load_lines-settings (suc fuel) ((k, value) ∷ es) cfg v h =
      load_lines-line fuel k value (settings_file es) cfg v.0
      ∙ load_lines-settings fuel es (assign fl k value cfg) v.1
          (settings_file-length k value (settings_file es) fuel h)

assign_all-outcome :
    (fl : Floats) (k : Key) (es : List (Key × List ℕ)) (c : Config)
    → setting_of k (assign_all fl es c) ≡ outcome fl k es (setting_of k c)
assign_all-outcome fl k [] c = refl
assign_all-outcome fl k ((j, value) ∷ es) c =
    assign_all-outcome fl k es (assign fl j value c)
    ∙ ap (outcome fl k es) (assign-setting fl j k value c)

-- `load_config` reads a file of settings back: from a file with a line "name = value" for each of a
-- list of settings it returns 1, and each setting of the configuration is then what the last line with
-- its name means, and as it was before if there is none. The values are not empty, without white space
-- and without the character 0, and each line has room in the buffer of 256 bytes.
pub load_config-settings_file :
    (fl : Floats) (es : List (Key × List ℕ)) (cfg : Config) (k : Key)
    → AreValues es
    → let (value, after) = load_config fl (some (settings_file es)) cfg in
      (value ≡ pos 1) × (setting_of k after ≡ outcome fl k es (setting_of k cfg))
unfolding load_config
load_config-settings_file fl es cfg k v = (
  refl,
  ap (setting_of k) (load_lines-settings fl (length (settings_file es)) es cfg v (omega arith))
      ∙ assign_all-outcome fl k es cfg,
)
