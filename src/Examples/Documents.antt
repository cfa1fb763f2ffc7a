-- ===== src/Examples/Documents.antt =====
-- A concrete `json` library for the examples.
use oss_us_web_design_system.Base.{
  ℕ, zero, suc, ◌≡◌, refl, ap, ◌∙◌, Option, some, map, List, [], ◌∷◌, length, Text,
}
use oss_us_web_design_system.Assistant.Answering.Replies.{Json, TextDict, undecodable}

-- A dictionary as the number of its members and its texts, each of which ends in 0 with every other
-- code raised by one.
abbrev pub ended : Text → Text → Text
ended [] rest = 0 ∷ rest
ended (c ∷ s) rest = suc c ∷ ended s rest

abbrev pub dump_members : TextDict → Text → Text
dump_members [] rest = rest
dump_members (m ∷ d) rest = ended m.0 (ended m.1 (dump_members d rest))

abbrev pub dump : List TextDict → Text
dump [] = []
dump (d ∷ ds) = ended (length d ∷ []) (dump_members d (dump ds))

abbrev pub push : ℕ → List Text → List Text
push c [] = (c ∷ []) ∷ []
push c (w ∷ ws) = (c ∷ w) ∷ ws

abbrev pub texts : Text → List Text
texts [] = []
texts (zero ∷ s) = [] ∷ texts s
texts (suc c ∷ s) = push c (texts s)

abbrev pub LoadedDict : Type 0
LoadedDict = List (Text × Option Text)

abbrev pub head_or_zero : Text → ℕ
head_or_zero [] = 0
head_or_zero (c ∷ _) = c

abbrev pub push_member : Text → Text → LoadedDict × List LoadedDict → LoadedDict × List LoadedDict
push_member k v r = ((k, some v) ∷ r.0, r.1)

-- The rest of a dictionary with so many members left, and the dictionaries behind it.
abbrev pub load : ℕ → List Text → LoadedDict × List LoadedDict
load zero [] = ([], [])
load zero (w ∷ ws) = let r = load (head_or_zero w) ws in ([], r.0 ∷ r.1)
load (suc n) [] = ([], [])
load (suc n) (k ∷ []) = ([], [])
load (suc n) (k ∷ v ∷ ws) = push_member k v (load n ws)

abbrev pub loaded : TextDict → LoadedDict
loaded d = map (λ m. (m.0, some m.1)) d

texts-ended : (s rest : Text) → texts (ended s rest) ≡ s ∷ texts rest
texts-ended [] rest = refl
texts-ended (c ∷ s) rest = rw (texts-ended s rest) refl

load-members :
    (d : TextDict) (rest : Text) (ds : List LoadedDict)
    → load 0 (texts rest) ≡ ([], ds)
    → load (length d) (texts (dump_members d rest)) ≡ (loaded d, ds)
load-members [] rest ds h = h
load-members (m ∷ d) rest ds h =
    rw (texts-ended m.0 (ended m.1 (dump_members d rest)), texts-ended m.1 (dump_members d rest))
      (ap (push_member m.0 m.1) (load-members d rest ds h))

pub load-dump : (ds : List TextDict) → load 0 (texts (dump ds)) ≡ ([], map loaded ds)
load-dump [] = refl
load-dump (d ∷ ds) =
    ap (load 0) (texts-ended (length d ∷ []) (dump_members d (dump ds)))
    ∙ ap (λ r. ([], r.0 ∷ r.1)) (load-members d (dump ds) (map loaded ds) (load-dump ds))

-- A `json` that decodes no reply.
abbrev pub json : Json
json = record {
  loads = λ _. undecodable;
  load_dictionaries = λ t. some (load 0 (texts t)).1;
  dump_dictionaries = dump;
  load-dump = λ ds _. ap (λ r. some r.1) (load-dump ds);
}
