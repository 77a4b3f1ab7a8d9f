-- ===== src/Device/Absorb/Writes.antt =====
-- Lists of entries that are written, and the setup to replay once they are absorbed.
use livox_mid360_core.Prelude.{
  ℕ, ◌≡◌, ◌∙◌, refl, ap, List, [], ◌∷◌, ◌++◌, Result, ok, err, fault, ◌>>=◌,
}
use livox_mid360_core.Protocol.Types.{KeyValue}
use livox_mid360_core.Keys.{KeyError}
use livox_mid360_core.Config.{HostSetup, put, ◌then_put◌}
use livox_mid360_core.Device.Absorb.{absorb_entry, absorb}

-- The entries are written, and absorbing them takes one setup to the other.
pub record Writes (m : Result KeyError (List KeyValue)) (old new : HostSetup) : Type 0 where
  pub entries : List KeyValue
  pub written : m ≡ ok entries
  pub absorbed : absorb old entries ≡ ok new

absorb_after :
    (r : Result KeyError HostSetup) (xs ys : List KeyValue)
    → ((s : HostSetup) → absorb s (xs ++ ys) ≡ (absorb s xs >>= λ s'. absorb s' ys))
    → (r >>= λ s. absorb s (xs ++ ys)) ≡ ((r >>= λ s. absorb s xs) >>= λ s'. absorb s' ys)
absorb_after (ok s) xs ys ih = ih s
absorb_after (err e) xs ys ih = refl
absorb_after fault xs ys ih = refl

absorb-append :
    (xs ys : List KeyValue) (s : HostSetup)
    → absorb s (xs ++ ys) ≡ (absorb s xs >>= λ s'. absorb s' ys)
unfolding absorb
absorb-append [] ys s = refl
absorb-append (x ∷ xs) ys s =
    absorb_after (absorb_entry s x.key x.value) xs ys (λ s'. absorb-append xs ys s')

pub both :
    (m n : Result KeyError (List KeyValue)) {old mid new : HostSetup}
    → Writes m old mid
    → Writes n mid new
    → Writes (m then_put n) old new
both m n u v = record {
  entries = u.entries ++ v.entries;
  written = ap (λ r. r then_put n) u.written ∙ ap (λ r. ok u.entries then_put r) v.written;
  absorbed =
      absorb-append u.entries v.entries _
      ∙ ap (λ r. r >>= λ s'. absorb s' v.entries) u.absorbed
      ∙ v.absorbed;
}

pub wrote :
    {A : Type 0} (k : ℕ) (encode : A → Result KeyError (List ℕ)) (v : A) (out : List ℕ)
    {old new : HostSetup}
    → encode v ≡ ok out
    → absorb_entry old k out ≡ ok new
    → Writes (put k encode v) old new
unfolding absorb
wrote k encode v out e a = record {
  entries = record { key = k; value = out } ∷ [];
  written = ap (λ r. r >>= λ bytes. ok (record { key = k; value = bytes } ∷ [])) e;
  absorbed = ap (λ r. r >>= (λ s. ok s)) a;
}

pub nothing : (s : HostSetup) → Writes (ok []) s s
unfolding absorb
nothing s = record { entries = []; written = refl; absorbed = refl }
