-- ===== src/Ps2/Rules.antt =====
-- What a function of the driver ensures: from a trace with `P` it returns with `Q`, or stops with `R`.
use maple_kernel.Base.{Bool, true, false, if◌then◌else◌}
use maple_kernel.Ps2.{Trace, Hardware, Result, ok, err, Io, pure, raise, ◌>>=◌, map_err, attempt}

abbrev pub Outcome :
    {E A : Type 0} → (A → Trace → Type 0) → (E → Trace → Type 0) → Result E A × Trace → Type 0
Outcome Q R (ok a, t) = Q a t
Outcome Q R (err e, t) = R e t

pub record Ensures {E A : Type 0} (P : Trace → Type 0) (m : Io E A) (Q : A → Trace → Type 0)
    (R : E → Trace → Type 0) : Type 0 where
  pub at : (d : Hardware) (t : Trace) → P t → Outcome Q R (m d t)

-- `m` keeps `P`, whether it returns or stops.
abbrev pub Keeps : {E A : Type 0} → (Trace → Type 0) → Io E A → Type 0
Keeps P m = Ensures P m (λ _. P) (λ _. P)

module _ {E A : Type 0} {P : Trace → Type 0} {Q : A → Trace → Type 0} {R : E → Trace → Type 0} where
  pub Ensures-pure : (a : A) → ((t : Trace) → P t → Q a t) → Ensures P (pure {E = E} a) Q R
  unfolding pure
  Ensures-pure a h = record { at = λ d t p. h t p }

  pub Ensures-raise : (e : E) → ((t : Trace) → P t → R e t) → Ensures P (raise {A = A} e) Q R
  unfolding raise
  Ensures-raise e h = record { at = λ d t p. h t p }

  pub Ensures-if :
      (b : Bool) (m n : Io E A)
      → Ensures P m Q R
      → Ensures P n Q R
      → Ensures P (if b then m else n) Q R
  Ensures-if true m n hm hn = hm
  Ensures-if false m n hm hn = hn

module _ {E A B : Type 0} {Q : A → Trace → Type 0} {S : B → Trace → Type 0}
    {R : E → Trace → Type 0} where
  bind-Outcome :
      (f : A → Io E B) (d : Hardware) (o : Result E A × Trace)
      → Outcome Q R o
      → ((a : A) → Ensures (Q a) (f a) S R)
      → Outcome S R (elim o.0 [ ok a ↦ f a d o.1 | err e ↦ (err e, o.1) ])
  bind-Outcome f d (ok a, t) h hf = (hf a).at d t h
  bind-Outcome f d (err e, t) h hf = h

module _ {E A B : Type 0} {P : Trace → Type 0} {Q : A → Trace → Type 0} {S : B → Trace → Type 0}
    {R : E → Trace → Type 0} where
  pub Ensures-bind :
      (m : Io E A) (f : A → Io E B)
      → Ensures P m Q R
      → ((a : A) → Ensures (Q a) (f a) S R)
      → Ensures P (m >>= f) S R
  unfolding ◌>>=◌
  Ensures-bind m f hm hf = record { at = λ d t p. bind-Outcome f d (m d t) (hm.at d t p) hf }

map_err-Outcome :
    {E F A : Type 0} (Q : A → Trace → Type 0) (R : F → Trace → Type 0) (f : E → F)
    (o : Result E A × Trace)
    → Outcome Q (λ e. R (f e)) o
    → Outcome Q R (elim o.0 [ ok a ↦ ok a | err e ↦ err (f e) ], o.1)
map_err-Outcome Q R f (ok a, t) h = h
map_err-Outcome Q R f (err e, t) h = h

attempt-Outcome :
    {E A : Type 0} (Q : Result E A → Trace → Type 0) (o : Result E A × Trace)
    → Outcome (λ a. Q (ok a)) (λ e. Q (err e)) o
    → Q o.0 o.1
attempt-Outcome Q (ok a, t) h = h
attempt-Outcome Q (err e, t) h = h

module _ {E F A : Type 0} {P : Trace → Type 0} {R : F → Trace → Type 0} where
  pub Ensures-map_err :
      {Q : A → Trace → Type 0} (f : E → F) (m : Io E A)
      → Ensures P m Q (λ e. R (f e))
      → Ensures P (map_err f m) Q R
  unfolding map_err
  Ensures-map_err {Q} f m h = record { at = λ d t p. map_err-Outcome Q R f (m d t) (h.at d t p) }

  pub Ensures-attempt :
      (Q : Result E A → Trace → Type 0) (m : Io E A)
      → Ensures P m (λ a. Q (ok a)) (λ e. Q (err e))
      → Ensures P (attempt m) Q R
  unfolding attempt
  Ensures-attempt Q m h = record { at = λ d t p. attempt-Outcome Q (m d t) (h.at d t p) }

-- What suffices for one claim suffices for a stronger claim's weaker parts.
module _ {E A : Type 0} {Q Q' : A → Trace → Type 0} {R R' : E → Trace → Type 0} where
  weaken-Outcome :
      (o : Result E A × Trace)
      → ((a : A) (t : Trace) → Q a t → Q' a t)
      → ((e : E) (t : Trace) → R e t → R' e t)
      → Outcome Q R o
      → Outcome Q' R' o
  weaken-Outcome (ok a, t) hq hr h = hq a t h
  weaken-Outcome (err e, t) hq hr h = hr e t h

  pub Ensures-weaken :
      {P : Trace → Type 0} {m : Io E A}
      → Ensures P m Q R
      → ((a : A) (t : Trace) → Q a t → Q' a t)
      → ((e : E) (t : Trace) → R e t → R' e t)
      → Ensures P m Q' R'
  Ensures-weaken {P} {m} h hq hr = record {
    at = λ d t p. weaken-Outcome (m d t) hq hr (h.at d t p);
  }

-- Functions that keep a property.
module _ {E A : Type 0} (P : Trace → Type 0) where
  pub Keeps-pure : (a : A) → Keeps P (pure {E = E} a)
  Keeps-pure a = Ensures-pure a (λ t p. p)

  pub Keeps-raise : (e : E) → Keeps P (raise {A = A} e)
  Keeps-raise e = Ensures-raise e (λ t p. p)

module _ {E A B : Type 0} (P : Trace → Type 0) where
  pub Keeps-bind :
      (m : Io E A) (f : A → Io E B) → Keeps P m → ((a : A) → Keeps P (f a)) → Keeps P (m >>= f)
  Keeps-bind m f hm hf = Ensures-bind m f hm hf

module _ {E F A : Type 0} (P : Trace → Type 0) where
  pub Keeps-map_err : (f : E → F) (m : Io E A) → Keeps P m → Keeps P (map_err f m)
  Keeps-map_err f m h = Ensures-map_err f m h

pub ruleset keeps_rules = (Keeps-pure, Keeps-raise, Keeps-bind, Keeps-map_err, Ensures-if)

-- What a function leaves behind on either way out.
module _ {E A : Type 0} (P : Trace → Type 0) where
  pub left_behind : (o : Result E A × Trace) → Outcome (λ _. P) (λ _. P) o → P o.1
  left_behind (ok a, t) h = h
  left_behind (err e, t) h = h
