-- ===== src/Js/Order.antt =====
-- The order of the doubles: `gt` is transitive, irreflexive, and decides against any number.
use ses.Base.{◌≡◌, refl, Bool, true, false, arith}
use ses.Js.{Number, nan, infinity, neg_infinity, finite, gt}

abbrev pub is_nan : Number → Bool
is_nan nan = true
is_nan _ = false

pub gt_irrefl : (a : Number) → gt a a ≡ false
gt_irrefl nan = refl
gt_irrefl infinity = refl
gt_irrefl neg_infinity = refl
gt_irrefl (finite z) = ground arith

pub gt_trans : (a b c : Number) → gt a b ≡ true → gt b c ≡ true → gt a c ≡ true
gt_trans nan b c h k = absurd (cc)
gt_trans neg_infinity b c h k = absurd (cc)
gt_trans (finite a) nan c h k = absurd (cc)
gt_trans (finite a) infinity c h k = absurd (cc)
gt_trans (finite a) neg_infinity c h k = absurd (cc)
gt_trans (finite a) (finite b) nan h k = absurd (cc)
gt_trans (finite a) (finite b) infinity h k = absurd (cc)
gt_trans (finite a) (finite b) neg_infinity h k = refl
gt_trans (finite a) (finite b) (finite c) h k = ground arith
gt_trans infinity nan c h k = absurd (cc)
gt_trans infinity infinity c h k = absurd (cc)
gt_trans infinity neg_infinity c h k = absurd (cc)
gt_trans infinity (finite b) nan h k = absurd (cc)
gt_trans infinity (finite b) infinity h k = absurd (cc)
gt_trans infinity (finite b) neg_infinity h k = refl
gt_trans infinity (finite b) (finite c) h k = refl

-- Every double that is not NaN decides: what is not above `b` is not above what `b` is not above.
pub gt_cotrans :
    (a b c : Number) → is_nan b ≡ false → gt a b ≡ false → gt a c ≡ true → gt b c ≡ true
gt_cotrans nan b c n h k = absurd (cc)
gt_cotrans neg_infinity b c n h k = absurd (cc)
gt_cotrans (finite a) nan c n h k = absurd (cc)
gt_cotrans (finite a) neg_infinity c n h k = absurd (cc)
gt_cotrans (finite a) b nan n h k = absurd (cc)
gt_cotrans (finite a) b infinity n h k = absurd (cc)
gt_cotrans (finite a) infinity neg_infinity n h k = refl
gt_cotrans (finite a) infinity (finite c) n h k = refl
gt_cotrans (finite a) (finite b) neg_infinity n h k = refl
gt_cotrans (finite a) (finite b) (finite c) n h k = ground arith
gt_cotrans infinity nan c n h k = absurd (cc)
gt_cotrans infinity neg_infinity c n h k = absurd (cc)
gt_cotrans infinity (finite b) c n h k = absurd (cc)
gt_cotrans infinity infinity c n h k = k

pub gt_not_nan : (a b : Number) → gt a b ≡ true → is_nan a ≡ false
gt_not_nan nan b h = absurd (cc)
gt_not_nan neg_infinity b h = refl
gt_not_nan infinity b h = refl
gt_not_nan (finite a) b h = refl
