-- ===== src/Drivedb/Table/Ata10.antt =====
-- backends/exec/drivedb.h, lines 5269 to 5418.
use Prim.Native.String.{String}

unfoldable pub ata_text_10 : String
ata_text_10 =
    "    \"(WDC )?WD((25|32|50|75)02A|(75|10)02F)BYS-.*\",\n    \"\", \"\", \"\"\n  },\n  { \"Western Digital RE4\", // tested with WDC WD2003FYYS-18W0B0/01.01D02,\n      // WDC WD1003FBYZ-010FB0/01.01V03\n      // WDC WD5003ABYZ-011FA0/01.01S03\n    \"WDC WD((25|50)03ABY[XZ]|1003FBY[XZ]|(15|20)03FYYS)-.*\",\n    \"\", \"\", \"\"\n  },\n  { \"Western Digital RE4-GP\", // tested with WDC WD2002FYPS-02W3B0/04.01G01,\n      // WD2003FYPS-27W9B0/01.01D02\n    \"(WDC )?WD200[23]FYPS-.*\",\n    \"\", \"\", \"\"\n  },\n  { \"Western Digital Re\", // tested with WDC WD1004FBYZ-01YCBB0/RR02,\n      // WDC WD2000FYYZ-01UL1B0/01.01K01, WDC WD2000FYYZ-01UL1B1/01.01K02,\n      // WDC WD4000FYYZ-01UL1B2/01.01K03, WD2000FYYX/00.0D1K2,\n      // WDC WD1004FBYZ-01YCBB1/RR04\n      // WD4000FYYZ, WD4000FDYZ, WD3000FYYZ, WD3000FDYZ, WD2000FYYZ, WD2000FDYZ\n      // WD2004FBYZ, WD1004FBYZ\n    \"WDC WD((1004|2004)FBYZ|([234]000)FDYZ|[234]000FYYZ|2000FYYX)-.*\",\n    \"\", \"\",\n    \"-v 16,raw48,Total_LBAs_Read\" // WDC WD1004FBYZ-01YCBB1/RR04\n  },\n  { \"Western Digital Re+\", // tested with WDC WD6005FRPZ-01S9PB0/01.0RRE1\n    \"WDC WD[56]005FRPZ-.*\",\n    \"\", \"\",\n    \"-v 16,raw48,Unknown_WDC_Attribute\" // WDC WD6005FRPZ-01S9PB0/01.0RRE1\n  },\n  { \"Western Digital Se\", // tested with WDC WD2000F9YZ-09N20L0/01.01A01\n    // WD6001F9YZ, WD5001F9YZ, WD4000F9YZ, WD3000F9YZ, WD2000F9YZ, WD1002F9YZ\n    \"WDC WD(1002|2000|3000|4000|5001|6001)F9YZ-.*\",\n    \"\", \"\", \"\"\n  },\n  { \"Western Digital Caviar Green\", // tested with WDC WD7500AADS-00M2B0/01.00A01,\n      // WDC WD10EADX/77.04D77\n    \"WDC WD((50|64|75)00AA[CV]S|(50|64|75)00AADS|10EA[CV]S|(10|15|20)EAD[SX])-.*\",\n    \"\",\n    \"\",\n    \"-F xerrorlba\" // tested with WDC WD7500AADS-00M2B0/01.00A01\n  },\n  { \"Western Digital Caviar Green (AF)\",\n    \"WDC WD(((64|75|80)00AA|(10|15|20)EA|(25|30)EZ)R|20EAC)S-.*\",\n    \"\", \"\", \"\"\n  },\n  { \"Western Digital Green\", // tested with\n      // WDC WD10EZRX-00A8LB0/01.01A01, WDC WD20EZRX-00DC0B0/80.00A80,\n      // WDC WD30EZRX-00MMMB0/80.00A80, WDC WD40EZRX-00SPEB0/80.00A80,\n      // WDC WD60EZRX-00MVLB1/80.00A80, WDC WD5000AZRX-00A8LB0/01.01A01\n    \"WDC WD(5000AZ|7500AA|(10|15|20)EA|(10|20|25|30|40|50|60)EZ)RX-.*\",\n    \"\", \"\", \"\"\n  },\n  { \"Western Digital Caviar Black\", // tested with WDC WD7501AAES/06.01D06\n    \"WDC WD((500|640)1AAL|7501AA[EL]|1001FA[EL]|2001FAS)S-.*|\"\n    \"WDC WD(2002|7502|1502|5003|1002|5002)(FAE|AAE|AZE|AAL)X-.*\", // could be\n    // WD2002FAEX, WD7502AAEX, WD1502FAEX, WD5003AZEX, WD1002FAEX, WD5002AALX\n    \"\", \"\", \"-F xerrorlba\" // WDC WD6401AALS-00L3B2/01.03B01 (ticket #1558)\n  },\n  { \"Western Digital Black\", // tested with\n      // WDC WD1003FZEX-00MK2A0/01.01A01, WDC WD3001FAEX-00MJRA0/01.01L01,\n      // WDC WD3003FZEX-00Z4SA0/01.01A01, WDC WD4001FAEX-00MJRA0/01.01L01\n      // WDC WD4003FZEX-00Z4SA0/01.01A01, WDC WD5003AZEX-00RKKA0/80.00A80,\n      // WDC WD4004FZWX-00GBGB0/81.H0A81, WDC WD4005FZBX-00K5WB0/01.01A01\n    \"WDC WD(6001|2003|5001|1003|4003|4004|4005|5003|3003|3001)(FZW|FZE|FZB|AZE)X-.*|\" // could be\n    // new series  WD6001FZWX WD2003FZEX WD5001FZWX WD1003FZEX\n    //             WD4003FZEX WD5003AZEX WD3003FZEX WD4004FZWX\n    \"WDC WD(4001|3001|2002|1002|5003|7500|5000|3200|2500|1600)(FAE|AZE)X-.*\",\n    // old series: WD4001FAEX WD3001FAEX WD2002FAEX WD1002FAEX  WD5003AZEX\n    \"\", \"\", \"\"\n  },\n  { \"Western Digital Black (SMR)\", // ticket #1313\n    \"WDC WD10SPSX-.*\",\n    \"\", \"\", \"\"\n  },\n  { \"Western Digital AV ATA\", // tested with WDC WD3200AVJB-63J5A0/01.03E01\n    \"WDC WD(8|16|25|32|50)00AV[BJ]B-.*\",\n    \"\", \"\", \"\"\n  },\n  { \"Western Digital AV SATA\",\n    \"WDC WD(16|25|32)00AVJS-.*\",\n    \"\", \"\", \"\"\n  },\n  { \"Western Digital AV-GP\",\n    \"WDC WD((16|25|32|50|64|75)00AV[CDV]S|(10|15|20)EV[CDV]S)-.*\",\n    \"\", \"\", \"\"\n  },\n  { \"Western Digital AV-GP (AF)\", // tested with WDC WD10EURS-630AB1/80.00A80,\n      // WDC WD10EUCX-63YZ1Y0/51.0AB52, WDC WD20EURX-64HYZY0/80.00A80\n    \"WDC WD(5000AUDX|7500AURS|10EUCX|(10|15|20|25|30)EUR[SX])-.*\",\n    \"\", \"\", \"\"\n  },\n  { \"Western Digital AV\", // tested with DC WD10JUCT-63CYNY0/01.01A01\n    \"WDC WD((16|25|32|50)00BU[CD]|5000LUC|10JUC)T-.*\",\n    \"\", \"\", \"\"\n  },\n  { \"Western Digital Raptor\",\n    \"WDC WD((360|740|800)GD|(360|740|800|1500)ADF[DS])-.*\",\n    \"\", \"\", \"\"\n  },\n  { \"Western Digital Raptor X\",\n    \"WDC WD1500AHFD-.*\",\n    \"\", \"\", \"\"\n  },\n  { \"Western Digital VelociRaptor\", // tested with WDC WD1500HLHX-01JJPV0/04.05G04,\n      // WDC WD6000HLHX-01JJPV0/04.05G04\n    \"WDC WD(((800H|(1500|3000)[BH]|1600H|3000G)LFS)|((1500|3000|4500|6000)[BH]LHX))-.*\",\n    \"\", \"\", \"\"\n  },\n  { \"Western Digital VelociRaptor (AF)\", // tested with WDC WD1000DHTZ-04N21V0/04.06A00\n    \"WDC WD(2500H|5000B|5000H|1000D)HTZ-.*\",\n    \"\", \"\", \"\"\n  },\n  { \"Western Digital Scorpio EIDE\",\n    \"WDC WD(4|6|8|10|12|16)00(UE|VE)-.*\",\n    \"\", \"\", \"\"\n  },\n  { \"Western Digital Scorpio Blue EIDE\", // tested with WDC WD3200BEVE-00A0HT0/11.01A11\n    \"WDC WD(4|6|8|10|12|16|25|32)00BEVE-.*\",\n    \"\", \"\", \"\"\n  },\n  { \"Western Digital Scorpio Serial ATA\",\n    \"WDC WD(4|6|8|10|12|16|25)00BEAS-.*\",\n    \"\", \"\", \"\"\n  },\n  { \"Western Digital Scorpio Blue Serial ATA\", // tested with WDC WD3200BEVS-08VAT2/14.01A14\n    \"WDC WD((4|6|8|10|12|16|25|32)00BEVS|(8|12|16|25|32|40|50|64)00BEVT|7500KEVT|10TEVT)-.*\",\n    \"\", \"\", \"\"\n  },\n  { \"Western Digital Scorpio Blue Serial ATA (AF)\", // tested with\n      // WDC WD10JPVT-00A1YT0/01.01A01\n    \"WDC WD((16|25|32|50|64|75)00BPVT|10[JT]PVT)-.*\",\n    \"\", \"\", \"\"\n  },\n  { \"Western Digital Scorpio Black\", // tested with WDC WD5000BEKT-00KA9T0/01.01A01\n    \"WDC WD(8|12|16|25|32|50)00B[EJ]KT-.*\",\n    \"\", \"\", \"\"\n  },\n  { \"Western Digital Scorpio Black (AF)\",\n    \"WDC WD(50|75)00BPKT-.*\",\n    \"\", \"\", \"\"\n  },\n  { \"Western Digital Red (CMR)\", // tested with // WDC WD80EZZX-11CSGA0/83.H0A03 (My Book 0x1058:0x25ee),\n      // WDC WD120EMFZ-11A6JA0/81.00A81 (Easystore 0x1058:0x25fb)\n      // WDC WD160EMFZ-11AFXA0/81.00A81,\n    \"WDC WD(7500BFCX|80EZZX|1[26]0EMFZ)-.*\",\n    \"\", \"\", \"\"\n  //\"-v 22,raw48,Helium_Level\" // WD120EMFZ, WD160EMFZ\n  },\n  { \"Western Digital Red (SMR)\", // ticket #1313, tested with WDC WD60EFAX-68SHWN0/82.00A82\n    \"WDC WD[2346]0EFAX-.*\","
