-- ===== src/Api/Reply/Steps.antt =====
-- internal/api/bbolt.go: what a function that returns no error tells of the calls that it makes.
use bgp_api.Base.{◌≡◌, refl}
use bgp_api.Api.Reply.{Reply, ok, err, ◌>>=◌}

pub ok-injective : {A : Type 0} (a b : A) → ok a ≡ ok b → a ≡ b
ok-injective a b e = cc

-- What a step that succeeds tells of its parts.
pub bind-ok :
    {A B : Type 0} (m : Reply A) (f : A → Reply B) (b : B)
    → (m >>= f) ≡ ok b
    → (a : A) × (m ≡ ok a) × (f a ≡ ok b)
unfolding ◌>>=◌
bind-ok (ok a) f b e = (a, refl, e)
bind-ok (err x) f b e = absurd (cc)
bind-ok Reply.panic f b e = absurd (cc)
bind-ok Reply.stuck f b e = absurd (cc)
