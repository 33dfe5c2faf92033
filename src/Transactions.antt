-- ===== src/Transactions.antt =====
-- TransactionManager.h and TransactionManager.cpp: the parts that all transactions share.
pub mod Split
pub mod Local
pub mod Several
pub mod Ids
mod Tests
use zero_reserve.Base.{ℕ, List, [], ◌∷◌, ◌++◌, Text, is_empty, ◌==◌, if◌then◌else◌}

-- TransactionManager::split: std::getline gives the characters up to the separator, or to the end,
-- and fails where the end comes at once. The first argument is what the current call has read.
unfoldable pub getlines : ℕ → Text → Text → List Text
getlines sep tok [] = if is_empty tok then [] else tok ∷ []
getlines sep tok (c ∷ s) =
    let here = getlines sep [] s in
    let on = getlines sep (tok ++ c ∷ []) s in if c == sep then tok ∷ here else on

unfoldable pub split : ℕ → Text → List Text
unfolding getlines
split sep s = getlines sep [] s
