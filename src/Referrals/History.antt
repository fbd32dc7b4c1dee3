-- ===== src/Referrals/History.antt =====
-- What holds of the referral ledger after any sequence of operations.
use crous_apartment_monitori.Referrals.Upkeep.{
  consume-Untouched, issue-Untouched, delete-Untouched, pay-IsSound, approve-IsSound,
  request-IsSound, reverse-IsSound, commission-IsSound, bind-Untouched, attribute-Untouched,
  create-Untouched, Untouched-IsSound,
}
use crous_apartment_monitori.Referrals.Soundness.{IsSound}
use crous_apartment_monitori.Referrals.Steps.{
  here, next, create, attribute, bind, commission, reverse, request, approve, pay, delete, issue,
  consume, consume, issue, delete, pay, approve, request, reverse, commission, bind, attribute,
  next, Reach, create, Step,
}
use crous_apartment_monitori.Referrals.Tables.{Ledger}
use crous_apartment_monitori.Common.Text.{Unicode}
use crous_apartment_monitori.Common.{String}

Step-IsSound :
    (u : Unicode) (hash : String → String) {t v : Ledger} → Step u hash t v → IsSound t → IsSound v
Step-IsSound u hash (create o c a r t t' p h) s =
    Untouched-IsSound t t' (create-Untouched u o c a r t t' p h) s
Step-IsSound u hash (attribute k c t) s = Untouched-IsSound t _ (attribute-Untouched k c t) s
Step-IsSound u hash (bind p k t) s = Untouched-IsSound t _ (bind-Untouched p k t) s
Step-IsSound u hash (commission us es p e t t' c h) s = commission-IsSound us es p e t t' c h s
Step-IsSound u hash (reverse o n t t' c h) s = reverse-IsSound o n t t' c h s
Step-IsSound u hash (request p a k t t' o h) s = request-IsSound p a k t t' o h s
Step-IsSound u hash (approve a k n t t' h) s = approve-IsSound a k n t t' h s
Step-IsSound u hash (pay a k r n t t' h) s = pay-IsSound a k r n t t' h s
Step-IsSound u hash (delete a k n t t' h) s =
    Untouched-IsSound t t' (delete-Untouched a k n t t' h) s
Step-IsSound u hash (issue p l k n t t' z h) s =
    Untouched-IsSound t t' (issue-Untouched hash p l k n t t' z h) s
Step-IsSound u hash (consume k n t) s = Untouched-IsSound t _ (consume-Untouched hash k n t) s

-- From a sound ledger every sequence of the calls of `Step` leads to a sound ledger: the ids of
-- commissions stay distinct, and no two payouts, and no payout twice, draw on one commission.
pub Reach-IsSound :
    (u : Unicode) (hash : String → String) (start t : Ledger)
    → IsSound start
    → Reach u hash start t
    → IsSound t
Reach-IsSound u hash start t s here = s
Reach-IsSound u hash start t s (next r st) =
    Step-IsSound u hash st (Reach-IsSound u hash start _ s r)
