-- ===== src/Drivedb/Table/Usb06.antt =====
-- backends/exec/drivedb.h, lines 6319 to 6468.
use Prim.Native.String.{String}

unfoldable pub usb_text_06 : String
usb_text_06 =
    "    \"\", // 0x0108\n    \"\",\n    \"-d sat\"\n  },\n  { \"USB: Dura Micro 509; Sunplus\",\n    \"0x0c0b:0xb159\",\n    \"\", // 0x0103\n    \"\",\n    \"-d usbsunplus\"\n  },\n  // Maxtor\n  { \"USB: Maxtor OneTouch 200GB; \",\n    \"0x0d49:0x7010\",\n    \"\",\n    \"\",\n    \"\" // unsupported\n  },\n  { \"USB: Maxtor OneTouch; \",\n    \"0x0d49:0x7300\",\n    \"\", // 0x0121\n    \"\",\n    \"-d sat\"\n  },\n  { \"USB: Maxtor OneTouch 4; \",\n    \"0x0d49:0x7310\",\n    \"\", // 0x0125\n    \"\",\n    \"-d sat\"\n  },\n  { \"USB: Maxtor OneTouch 4 Mini; \",\n    \"0x0d49:0x7350\",\n    \"\", // 0x0125\n    \"\",\n    \"-d sat\"\n  },\n  { \"USB: Maxtor BlackArmor Portable; \",\n    \"0x0d49:0x7550\",\n    \"\",\n    \"\",\n    \"-d sat\"\n  },\n  { \"USB: Maxtor Basics Desktop; \",\n    \"0x0d49:0x7410\",\n    \"\", // 0x0122\n    \"\",\n    \"-d sat\"\n  },\n  { \"USB: Maxtor Basics Portable; \",\n    \"0x0d49:0x7450\",\n    \"\", // 0x0122\n    \"\",\n    \"-d sat\"\n  },\n  // Jess-Link International\n  { \"USB: ; Cypress\", // Medion HDDrive2Go\n    \"0x0dbf:0x9001\",\n    \"\", // 0x0240\n    \"\",\n    \"-d usbcypress\"\n  },\n  // Oyen Digital\n  { \"USB: Oyen Digital MiniPro USB 3.0; \",\n    \"0x0dc4:0x020a\",\n    \"\",\n    \"\",\n    \"-d sat\"\n  },\n  // Netac Technology\n  { \"USB: Netac Z Slim; \",\n    \"0x0dd8:0x0562\",\n    \"\", // 0x1101\n    \"\",\n    \"-d sat\"\n  },\n  // Cowon Systems, Inc.\n  { \"USB: Cowon iAudio X5; \",\n    \"0x0e21:0x0510\",\n    \"\",\n    \"\",\n    \"-d usbcypress\"\n  },\n  // TerraMaster (?)\n  { \"USB: ; \",\n    \"0x1000:0x1352\", // TerraMaster D5-300C 5-Bay Box\n    \"\",\n    \"\",\n    \"-d sat\"\n  },\n  // Apacer\n  { \"USB: Apacer; \",\n    \"0x1005:0xc004\", // Apacer AC633\n    \"\",\n    \"\",\n    \"-d sat\"\n  },\n  // iRiver\n  { \"USB: iRiver iHP-120/140 MP3 Player; Cypress\",\n    \"0x1006:0x3002\",\n    \"\", // 0x0100\n    \"\",\n    \"-d usbcypress\"\n  },\n  // Western Digital\n  { \"USB: WD My Passport (IDE); Cypress\",\n    \"0x1058:0x0701\",\n    \"\", // 0x0240\n    \"\",\n    \"-d usbcypress\"\n  },\n  { \"USB: Western Digital; ASMedia ASM236x\",\n    \"0x1058:0x266e\", // WD Elements SE SSD\n    \"\",\n    \"\",\n    \"-d sntasmedia\"\n  },\n  { \"USB: Western Digital; \",\n    \"0x1058:0x....\",\n    \"\",\n    \"\",\n    \"-d sat\"\n  },\n  // Pandora International\n  { \"USB: ; \",\n    \"0x1111:0x2222\", // MAIWO SAS docking station / KALEA-INFORMATIQUE SAS docking station\n    \"\", // 0x0157\n    \"\", // '-d sat' works with SATA disks and also provides some info from SAS disks.\n    \"-d sat\" // 'smartctl -d scsi -i ...' with a SAS disk times out, disconnects the device\n             // and then requires a power cycle.\n  },\n  // Atech Flash Technology\n  { \"USB: ; Atech\", // Kingston\n    \"0x11b0:0x6(298|388)\",\n    \"\", // 0x0108, 0x5408\n    \"\",\n    \"-d sat\"\n  },\n  // Brain Actuated Technologies\n  { \"USB: ; Atech\", // ICY BOX 2x Raid enclosure IB-RD2253-U31\n    \"0x1234:0x5678\",\n    \"\", // 0x0100\n    \"\",\n    \"-d sat\"\n  },\n  // ADATA\n  { \"USB: ADATA; \",\n    \"0x125f:0xa(1[135]|21|31|3[57]|68|7[56]|8[35])a\", // 0xa11a: Classic CH11 1TB, 0xa13a: NH13 1TB,\n    \"\", // 0xa15a: HD710 1TB, 0xa21a: HV610 (0x4504), 0xa31a: HV620 2TB (0x0100),\n    \"\", // 0xa35a: HD650 2TB (0x6503), 0xa37a: Silverstone MS10 M.2 (0x3103), 0xa75a: HD710P 4TB,\n        // 0xa68a: SD600, 0xa76a: ED600 (0x0204), 0xa83a: HD330 (0x0100),\n        // 0xa85a: HD680 (0x100)"
