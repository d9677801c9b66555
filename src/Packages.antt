-- ===== src/Packages.antt =====
-- The packages whose names app/module.go and app/keepers use. A package stands for its constants
-- `ModuleName`, `SubModuleName` and `StoreKey`, which are one text in each of them, and no two
-- packages have the same one.
use echofi.Prelude.{ℕ, Bool, true, false, List, [], ◌∷◌, if◌then◌else◌, ◌==◌, ◌+◌}

pub data Package : Type 0 where
  authtypes banktypes stakingtypes minttypes distrtypes slashingtypes govtypes : Package
  paramstypes ibcexported upgradetypes evidencetypes ibctransfertypes icahosttypes : Package
  icacontrollertypes icatypes feegrant authz pfmroutertypes ratelimittypes : Package
  providertypes consensusparamtypes wasmtypes ibcwasmtypes erc20types : Package
  feemarkettypes evmtypes precisebanktypes crisistypes genutiltypes vestingtypes ibctm : Package

abbrev pub tag : Package → ℕ
tag authtypes = 0
tag banktypes = 1
tag stakingtypes = 2
tag minttypes = 3
tag distrtypes = 4
tag slashingtypes = 5
tag govtypes = 6
tag paramstypes = 7
tag ibcexported = 8
tag upgradetypes = 9
tag evidencetypes = 10
tag ibctransfertypes = 11
tag icahosttypes = 12
tag icacontrollertypes = 13
tag icatypes = 14
tag feegrant = 15
tag authz = 16
tag pfmroutertypes = 17
tag ratelimittypes = 18
tag providertypes = 19
tag consensusparamtypes = 20
tag wasmtypes = 21
tag ibcwasmtypes = 22
tag erc20types = 23
tag feemarkettypes = 24
tag evmtypes = 25
tag precisebanktypes = 26
tag crisistypes = 27
tag genutiltypes = 28
tag vestingtypes = 29
tag ibctm = 30

abbrev pub same : Package → Package → Bool
same p q = tag p == tag q

abbrev pub contains : Package → List Package → Bool
contains p [] = false
contains p (q ∷ qs) = if same p q then true else contains p qs

abbrev pub count : Package → List Package → ℕ
count p [] = 0
count p (q ∷ qs) = (if same p q then 1 else 0) + count p qs
