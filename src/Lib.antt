-- ===== src/Lib.antt =====
-- Verification of the front end and the chain scripts of web3-lab-public.
--
-- The program: a single-page application (frontend/app/src) with which a user signs in by OAuth2,
-- with a wallet (SIWE), a password or Google, and then deploys, mints and transfers tokens through
-- a gateway that sponsors the transactions of the user's smart wallet; and the scripts
-- (contracts/scripts) that deploy the contracts, try them out and fund the paymaster.
--
-- How it is modelled. A page's React state is a record, with a field for each `useState`. An
-- asynchronous function is a function on a world, which holds the state, `localStorage` and the trace
-- of what was asked of the outside, into a value or an error message, and a new world (Browser). The
-- gateway, Blockscout, the wallet, the node and the ethers library are not part of the repository's
-- front end: they are records of functions that answer each question from the trace so far, so that a
-- theorem holds whatever they answer. What a closure reads of the render that made it is the argument
-- `view`, the state that it changes is the world's.
--
-- The files and what they model; `pages/` stands for frontend/app/src/pages/.
--
--   Prelude                names of the libraries, tests, lists, and the association list of a storage
--   Text                   the methods of JavaScript's strings that the pages use
--   Browser                requests, replies, the world and the monad
--   Session                logout and switchWallet, which pages/DashboardPage.tsx and
--                          pages/ProfilePage.tsx hold alike, and the copy functions
--   Dashboard.State        the types and the state of pages/DashboardPage.tsx
--   Dashboard.Services     what the dashboard calls and the front end does not implement
--   Dashboard.Transaction  executeTransaction
--   Dashboard.TokenId      getNextTokenIdForERC721
--   Dashboard.Upload       handleFileSelect, clearUpload, uploadImageToMinIO, generateMetadata,
--                          registerERC20Icon
--   Dashboard.Submit       handleSubmitWithUpload and the effect on txResult
--   Dashboard.Identities   fetchIdentities, linkWallet, unlinkIdentity, getProviderIcon
--   Dashboard.Portfolio    fetchData, fetchPortfolio, and the effect that selects an asset
--   Dashboard.Forms        the handlers and values of the inputs
--   Dashboard.ContextMenu  the menu of a right click
--   Dashboard.Account      the account's functions and CopyableFieldDark
--   Dashboard.View         what the page shows, without its styles
--   Dashboard.Marks        what a submission writes, and what holds between two of them
--   Dashboard.Edits        the events of the inputs, the menu and the timers
--   Dashboard.Machine      the steps that the user, the effects and the timers take on the page, each
--                          handler as one step, and the states that they reach
--   Dashboard.Threads      the same page with several of its asynchronous functions in flight, which stop
--                          at each await: handleSubmitWithUpload, the effect on txResult, fetchData,
--                          linkWallet, unlinkIdentity and fetchIdentities. The modules Programs under
--                          Dashboard have them as such programs
--   Program                such programs, what they do to a mark of loading (Silent, Marks, Advance,
--                          Ending), and a page with a list of those that it has started (Crew)
--   Site                   the pages together: a tab that shows one of them over the storage that
--                          they share, the visits of App.tsx's routes, the session's token, and a
--                          browser with several tabs (Windows)
--   Login                  pages/LoginPage.tsx: State, Siwe (handleSiweLogin) and Kratos (the others)
--   Callback, Home, Profile  the other pages, App.tsx and main.tsx
--   Scripts                contracts/scripts: deploy.js, deploy.ts, test-interact.js and
--                          fund_paymaster.ts
--   Examples               concrete runs
--
-- Bounds and fuel. The search for the next token id runs on fuel 15: it halves the ids from 0 to 10000,
-- and 10001 < 2 ^ 14. All other loops are recursions on lists or on the number of rounds left.
--
-- What is left out. In Dashboard.Machine and Site a handler runs without another event at its
-- awaits; in Dashboard.Threads events come in at the awaits of the functions named above; signing
-- out and switching the wallet are not among them. There unlinkIdentity's question, which holds
-- the browser, counts as an await. Requests that the source starts together are made one after the
-- other. In a browser with several tabs a handler of one tab runs before another tab's turn.
-- Styles, logging and the layout have no model, nor has what a browser makes of a `select` whose
-- value is no option's. deploy.js does not wait for its file to be
-- written, and the model writes it at once. The frontends app-2 to app-4 have the code of app but
-- for the colours in the names of their CSS classes, so that what is modelled of app is modelled
-- of them; the Go backend and the Solidity contracts are seen through their answers only.
-- debugTx.ts, decode.cjs and the debug scripts print values of one transaction.
pub mod Prelude
pub mod Browser
pub mod Program
pub mod Text
pub mod Dashboard
pub mod Session
pub mod Login
pub mod Callback
pub mod Home
pub mod Profile
pub mod Site
pub mod Scripts
pub mod Examples
